-- ===== src/Http/Requests/Run.antt =====
-- One request of http/src/module.cpp from the call of the script to the settlement of its promise.
use koya_plugins.Base.{
  get_property, bytes_eq, proto, none, ℕ, ◌≡◌, refl, ap, ◌∙◌, Bool, true, false, not, ◌||◌, some,
  List, [], ◌∷◌, ◌++◌, append_assoc, Table, find, erase, emplace, emplace_fresh, entries, ==_iff,
  if◌then◌else◌, is_empty, Bytes,
}
use koya_plugins.Http.Types.{Headers, Job, MultipartPart}
use koya_plugins.Http.Url.{UrlMatch, match_url, port_of, path_of}
use koya_plugins.Http.Values.{jsvalue_to_body, jsvalue_to_multipart}
use koya_plugins.Http.Worker.{
  Library, perform, perform_match, encode_multipart, Answer, response, failure, client_call, finish,
}
use koya_plugins.Http.Requests.{
  headers_object, RequestPromiseContext, Effect, made, freed_resolve, freed_reject, idle, working,
  HttpContext, RequestOptions, job_of, add_request, js_request, take_job, post, call_effect,
  Dispatch, runs_inline, drain, takes, performs, drains, step_at, steps,
}
use koya_plugins.Http.Requests.Outcome.{
  at_rest, last_header, headers_object_lookup, outcome, one_request, request_accepted, context_of,
  finish-outcome, encoded, released, request_callback-released, drain_one, released-log,
  released-pending,
}

pick_first {ℓ} :
    {A : Type ℓ} (b c : Bool) (x y : A)
    → (not b || c) ≡ true
    → (if b then (if c then x else y) else x) ≡ x
pick_first true true x y h = refl
pick_first true false x y h = cc
pick_first false c x y h = refl

-- What performing a job gives where its URL matches and its port fits.
perform-finish :
    (lib : Library) (job : Job) (m : UrlMatch) (port : ℕ)
    → match_url job.url ≡ some m
    → port_of m ≡ some port
    → (not m.secure || lib.openssl) ≡ true
    → perform lib job
      ≡ some (
          finish m.secure
            (encode_multipart job)
            (lib.send m.secure m.host port (client_call lib (encode_multipart job) (path_of m))))
unfolding perform perform_match
perform-finish lib job m port u p ssl =
    rw (u, perform, p) (ap some (pick_first m.secure lib.openssl _ _ ssl))

-- The state after the worker has performed the job.
abbrev performed : HttpContext → RequestOptions → Bytes → List MultipartPart → Job → HttpContext
performed s o body parts job = record (add_request s o body parts) {
  waiting = [];
  worker = idle;
  done = job ∷ [];
}

steps-one_request :
    (lib : Library) (host : Job → Dispatch) (next : ℕ) (pending : Table ℕ)
    (promises : Table RequestPromiseContext) (sequence : ℕ) (tasks : List Job) (log : List Effect)
    (o : RequestOptions) (body : Bytes) (parts : List MultipartPart) (job : Job)
    → let s = at_rest next pending promises sequence tasks log in
      js_request s o ≡ add_request s o body parts
      → perform lib (job_of s o body parts) ≡ some job
      → steps lib s (one_request host o) ≡ drain host (performed s o body parts job)
unfolding steps step_at take_job
steps-one_request lib host next pending promises sequence tasks log o body parts job r p =
    let s = at_rest next pending promises sequence tasks log in
    let first = job_of s o body parts in
    let taken = record (add_request s o body parts) { waiting = []; worker = working first } in
    ap (λ t. steps lib t (takes ∷ performs ∷ drains host ∷ [])) r
    ∙ ap (λ result. steps lib (post taken result) (drains host ∷ [])) p

find-front {ℓ} : {V : Type ℓ} (k : ℕ) (v : V) (t : Table V) → find k ((k, v) ∷ t) ≡ some v
unfolding find
find-front k v t = rw ((==_iff k k).1 refl) refl

erase-front {ℓ} : {V : Type ℓ} (k : ℕ) (v : V) (t : Table V) → erase k ((k, v) ∷ t) ≡ t
unfolding erase
erase-front k v t = rw ((==_iff k k).1 refl) refl

finish-complete :
    (secure : Bool) (job : Job) (answer : Answer)
    → (finish secure job answer).complete ≡ job.complete
finish-complete secure job (response status headers body) = refl
finish-complete secure job (failure message verify_error) = refl

job_of-url :
    (s : HttpContext) (o : RequestOptions) (body : Bytes) (parts : List MultipartPart)
    → (job_of s o body parts).url ≡ o.url
job_of-url s o body [] = refl
job_of-url s o body (p ∷ parts) = refl

-- A plugin that serves and has no job under way, a call of request with a URL, a body and parts that can
-- be read, one round of the worker and one drain that the host settles at once, where the URL matches,
-- its port fits and, for https, the build has OpenSSL: the promise is made; for a response of the
-- client its resolving function is called with the status, the headers and the body, as a text up to its
-- first NUL byte or, if it was asked for, as a buffer, and for a failure its rejecting function with a
-- text that is not empty before it is cut at a NUL byte; both functions are freed, and no promise is
-- pending that was not before. However the engine reads bytes as texts, the object of the headers has
-- under a name the value of the last header that is read with this name, each up to its first NUL byte,
-- and nothing of its own under `__proto__`.
pub request_run :
    (lib : Library) (host : Job → Dispatch) (next : ℕ) (pending : Table ℕ)
    (promises : Table RequestPromiseContext) (sequence : ℕ) (tasks : List Job) (log : List Effect)
    (o : RequestOptions) (body : Bytes) (parts : List MultipartPart) (m : UrlMatch) (port : ℕ)
    → is_empty o.url ≡ false
    → jsvalue_to_body o.body ≡ some body
    → jsvalue_to_multipart o.multipart ≡ some parts
    → match_url o.url ≡ some m
    → port_of m ≡ some port
    → (not m.secure || lib.openssl) ≡ true
    → entries next pending ≡ 0
    → ((job : Job) → host job ≡ runs_inline)
    → let s = at_rest next pending promises sequence tasks log in
      let job = encode_multipart (job_of s o body parts) in
      let answer = lib.send m.secure m.host port (client_call lib job (path_of m)) in
      let s' = steps lib s (one_request host o) in
      (s'.log
        ≡ log
          ++ (made next
              ∷ outcome next o m.secure answer
              ∷ freed_resolve next o.resolve
              ∷ freed_reject next o.reject
              ∷ []))
      × (s'.pending ≡ pending)
      × ((decode : Bytes → Bytes) (headers : Headers) (name : Bytes)
          → get_property name (headers_object decode headers [])
            ≡ (if bytes_eq name proto then none else last_header decode name headers))
request_run lib host next pending promises sequence tasks log o body parts m port u b p match fits
      ssl none_pending inline =
    (
      ap (λ t. t.log) whole
          ∙ released-log start done (context_of o) refl
          ∙ append_assoc log (made next ∷ []) _
          ∙ ap
              (λ e.
                log
                ++ (made next
                    ∷ e
                    ∷ freed_resolve done.complete o.resolve
                    ∷ freed_reject done.complete o.reject
                    ∷ []))
              called_right
          ∙ ap
              (λ k.
                log
                ++ (made next
                    ∷ outcome next o m.secure answer
                    ∷ freed_resolve k o.resolve
                    ∷ freed_reject k o.reject
                    ∷ []))
              named,
      ap (λ t. t.pending) whole
          ∙ released-pending start done (context_of o)
          ∙ ap (λ k. erase k (emplace next next pending)) named
          ∙ ap (erase next) (emplace_fresh next next pending none_pending)
          ∙ erase-front next next pending,
      λ decode headers name. headers_object_lookup decode name headers,
    )
  where
    s : HttpContext
    s = at_rest next pending promises sequence tasks log

    job : Job
    job = encode_multipart (job_of s o body parts)

    answer : Answer
    answer = lib.send m.secure m.host port (client_call lib job (path_of m))

    done : Job
    done = finish m.secure job answer

    start : HttpContext
    start = record (performed s o body parts done) { done = [] }

    named : done.complete ≡ next
    named = finish-complete m.secure job answer ∙ (encoded s o body parts).0

    called_right : call_effect done (context_of o) ≡ outcome next o m.secure answer
    called_right =
        finish-outcome job next o m.secure answer (encoded s o body parts).0
          (encoded s o body parts).1

    found : find done.complete start.promises ≡ some (context_of o)
    found = ap (λ k. find k start.promises) named ∙ find-front next (context_of o) promises

    whole : steps lib s (one_request host o) ≡ released start done (context_of o)
    whole =
        steps-one_request lib host next pending promises sequence tasks log o body parts done
          (request_accepted s o body parts u b p)
          (perform-finish lib (job_of s o body parts) m port
            (ap match_url (job_of-url s o body parts) ∙ match) fits ssl)
        ∙ drain_one host (performed s o body parts done) done refl (inline done)
        ∙ request_callback-released start done (context_of o) found refl
