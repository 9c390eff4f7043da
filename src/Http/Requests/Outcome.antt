-- ===== src/Http/Requests/Outcome.antt =====
-- What one request of http/src/module.cpp comes to: the effects of its settlement.
use koya_plugins.Base.{
  ℕ, bytes_eq, bytes_eq_iff, Properties, proto, set_property, get_property, get-set, set-proto,
  Option, none, Option-cases, Bool-cases, inl, inr, ◌≡◌, refl, ap, ◌∙◌, Bool, true, false, not,
  ◌&&◌, some, List, [], ◌∷◌, ◌++◌, append_assoc, Table, find, erase, codes, if◌then◌else◌, is_empty,
  Bytes, c_string,
}
use koya_plugins.Http.Types.{Headers, Job, MultipartPart}
use koya_plugins.Http.Values.{jsvalue_to_body, jsvalue_to_multipart}
use koya_plugins.Http.Worker.{encode_multipart, Answer, response, failure, finish, failure_text}
use koya_plugins.Http.Requests.{
  RequestPromiseContext, Effect, called, freed_resolve, freed_reject, idle, HttpContext,
  RequestOptions, job_of, add_request, headers_object, js_request, release_promise, call_effect,
  settle_request, Dispatch, runs_inline, request_callback, drain_jobs, drain, Event, requests,
  takes, performs, drains, Result, error, Body, text, buffer, no_body,
}

-- A plugin that serves and has nothing to do.
abbrev pub at_rest :
    ℕ → Table ℕ → Table RequestPromiseContext → ℕ → List Job → List Effect → HttpContext
at_rest next pending promises sequence tasks log = record {
  active = true;
  next_request_id = next;
  pending = pending;
  promises = promises;
  multipart_sequence = sequence;
  waiting = [];
  worker = idle;
  done = [];
  tasks = tasks;
  log = log;
}

abbrev pub body_result : Bool → Bytes → Body
body_result false bytes = text (c_string bytes)
body_result true [] = no_body
body_result true (b ∷ bytes) = buffer (b ∷ bytes)

abbrev pub message_result : Bytes → Bytes
message_result [] = codes "HTTP request failed"
message_result (c ∷ message) = c_string (c ∷ message)

-- The function that is called for an answer of the client, and what it is given.
abbrev pub outcome : ℕ → RequestOptions → Bool → Answer → Effect
outcome id o secure (response status headers body) = called id o.resolve (
    Result.response status (λ decode. headers_object decode headers []) (body_result o.binary body))
outcome id o secure (failure message verify_error) =
    called id o.reject (error (message_result (failure_text secure message verify_error)))

-- The value of the last header with a name, both as the engine reads the C strings.
unfoldable pub last_header : (decode : Bytes → Bytes) → Bytes → Headers → Option Bytes
unfolding bytes_eq c_string
last_header decode name [] = none
last_header decode name ((key, value) ∷ headers) = elim (last_header decode name headers) [
  | none ↦ if bytes_eq (decode (c_string key)) name then some (decode (c_string value)) else none
  | some last ↦ some last
]

abbrev or_else : Option Bytes → Option Bytes → Option Bytes
or_else none o = o
or_else (some v) o = some v

headers_object-get :
    (decode : Bytes → Bytes) (name : Bytes) (headers : Headers) (obj : Properties)
    → bytes_eq name proto ≡ false
    → get_property name (headers_object decode headers obj)
      ≡ or_else (last_header decode name headers) (get_property name obj)
unfolding headers_object last_header
headers_object-get decode name [] obj plain = refl
headers_object-get decode name ((key, value) ∷ headers) obj plain =
    headers_object-get decode name headers
      (set_property (decode (c_string key)) (decode (c_string value)) obj) plain
    ∙ elim (Option-cases (last_header decode name headers)) [
      | inr (v, e) ↦ rw (e, last_header) refl
      | inl e ↦
          rw (e, last_header)
            (get-set name (decode (c_string key)) (decode (c_string value)) obj plain
              ∙ elim (Bool-cases (bytes_eq (decode (c_string key)) name)) [
                | inl m ↦ rw m refl
                | inr m ↦ rw m refl
              ])
    ]

headers_object-proto :
    (decode : Bytes → Bytes) (headers : Headers) (obj : Properties)
    → get_property proto obj ≡ none
    → get_property proto (headers_object decode headers obj) ≡ none
unfolding headers_object
headers_object-proto decode [] obj h = h
headers_object-proto decode ((key, value) ∷ headers) obj h =
    headers_object-proto decode headers
      (set_property (decode (c_string key)) (decode (c_string value)) obj)
      (set-proto (decode (c_string key)) (decode (c_string value)) obj h)

-- The property of a name.
pub headers_object_lookup :
    (decode : Bytes → Bytes) (name : Bytes) (headers : Headers)
    → get_property name (headers_object decode headers [])
      ≡ (if bytes_eq name proto then none else last_header decode name headers)
unfolding get_property
headers_object_lookup decode name headers = elim (Bool-cases (bytes_eq name proto)) [
  | inl e ↦ rw e (
      ap (λ n. get_property n (headers_object decode headers [])) ((bytes_eq_iff name proto).0 e)
      ∙ headers_object-proto decode headers [] refl)
  | inr e ↦ rw e (
      headers_object-get decode name headers [] e
      ∙ elim (Option-cases (last_header decode name headers)) [
        | inl f ↦ rw f refl
        | inr (v, f) ↦ rw f refl
      ])
]

abbrev pub one_request : (Job → Dispatch) → RequestOptions → List Event
one_request host o = requests o ∷ takes ∷ performs ∷ drains host ∷ []

pub request_accepted :
    (s : HttpContext) (o : RequestOptions) (body : Bytes) (parts : List MultipartPart)
    → is_empty o.url ≡ false
    → jsvalue_to_body o.body ≡ some body
    → jsvalue_to_multipart o.multipart ≡ some parts
    → js_request s o ≡ add_request s o body parts
unfolding js_request
request_accepted s o body parts u b p = rw (u, js_request, b, p) refl

-- The contexts of a promise that was just made.
abbrev pub context_of : RequestOptions → RequestPromiseContext
context_of o = record { resolve = o.resolve; reject = o.reject; released = false }

body_result_lem :
    (binary : Bool) (bytes : Bytes)
    → (if binary then (if is_empty bytes then no_body else buffer bytes) else text (c_string bytes))
      ≡ body_result binary bytes
body_result_lem false bytes = refl
body_result_lem true [] = refl
body_result_lem true (b ∷ bytes) = refl

abbrev or_default : Bytes → Bytes
or_default message = if is_empty message then codes "HTTP request failed" else message

message_result_lem :
    (message : Bytes)
    → (if is_empty (or_default message)
        then codes "HTTP request failed"
        else c_string (or_default message))
      ≡ message_result message
unfolding c_string
message_result_lem [] = refl
message_result_lem (c ∷ message) = refl

pub finish-outcome :
    (job : Job) (id : ℕ) (o : RequestOptions) (secure : Bool) (answer : Answer)
    → job.complete ≡ id
    → job.binary ≡ o.binary
    → call_effect (finish secure job answer) (context_of o) ≡ outcome id o secure answer
finish-outcome job id o secure (response status headers body) named same =
    rw (named, same)
      (ap
        (λ b.
          called id o.resolve
            (Result.response status (λ decode. headers_object decode headers []) b))
        (body_result_lem o.binary body))
finish-outcome job id o secure (failure message verify_error) named same = rw named (
    ap (λ t. called id o.reject (error t))
      (message_result_lem (failure_text secure message verify_error)))

pub encoded :
    (s : HttpContext) (o : RequestOptions) (body : Bytes) (parts : List MultipartPart)
    → ((encode_multipart (job_of s o body parts)).complete ≡ s.next_request_id)
      × ((encode_multipart (job_of s o body parts)).binary ≡ o.binary)
unfolding encode_multipart
encoded s o body [] = (refl, refl)
encoded s o body (p ∷ parts) = (refl, refl)

-- A task of a promise that was not released, and what it leaves.
abbrev pub released : HttpContext → Job → RequestPromiseContext → HttpContext
released s job p =
    release_promise
      (record s { pending = erase job.complete s.pending; log = s.log ++ call_effect job p ∷ [] })
      job.complete p

module _ (s : HttpContext) (job : Job) (p : RequestPromiseContext)
    (found : find job.complete s.promises ≡ some p)
    (open_ : (s.active && not p.released) ≡ true) where
  settle_request-released : settle_request s job ≡ released s job p
  unfolding settle_request
  settle_request-released = rw (found, settle_request) (rw open_ refl)

  pub request_callback-released : request_callback s job runs_inline ≡ released s job p
  unfolding request_callback
  request_callback-released = rw (found, request_callback) (rw open_ refl) ∙ settle_request-released

pub drain_one :
    (host : Job → Dispatch) (s : HttpContext) (job : Job)
    → s.done ≡ job ∷ []
    → host job ≡ runs_inline
    → drain host s ≡ request_callback (record s { done = [] }) job runs_inline
unfolding drain drain_jobs
drain_one host s job d h =
    ap (drain_jobs host (record s { done = [] })) d
    ∙ ap (request_callback (record s { done = [] }) job) h

pub released-log :
    (s : HttpContext) (job : Job) (p : RequestPromiseContext)
    → p.released ≡ false
    → (released s job p).log
      ≡ s.log
        ++ (call_effect job p
            ∷ freed_resolve job.complete p.resolve
            ∷ freed_reject job.complete p.reject
            ∷ [])
unfolding release_promise
released-log s job p fresh = rw fresh (append_assoc s.log (call_effect job p ∷ []) _)

pub released-pending :
    (s : HttpContext) (job : Job) (p : RequestPromiseContext)
    → (released s job p).pending ≡ erase job.complete s.pending
unfolding release_promise
released-pending s job p = refl
