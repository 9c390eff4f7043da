-- ===== src/Http/Requests/Ledger.antt =====
-- How often the promises of http/src/module.cpp are made, settled and released over whole runs.
use koya_plugins.Base.{
  ℕ, ◌+◌, ◌%◌, ◌^◌, ◌≤◌, ◌≡◌, refl, ◌∙◌, Bool, true, false, not, ◌&&◌, Option, none, some, List, [],
  ◌∷◌, ◌++◌, arith, Table, find, erase, emplace_fresh, replace, entries, find_present,
  find-replace_other, tally, tally-append, ◌==◌, if◌then◌else◌, if_keeps, Option-cases, Bool-cases,
  inl, inr, is_empty, Bytes,
}
use koya_plugins.Http.Types.{Job, MultipartPart}
use koya_plugins.Http.Values.{jsvalue_to_body, jsvalue_to_multipart}
use koya_plugins.Http.Worker.{Library, perform}
use koya_plugins.Http.Requests.{
  RequestPromiseContext, Effect, made, Phase, idle, terminated, working, HttpContext,
  RequestOptions, add_request, js_request, take_job, post, release_promise, call_effect,
  settle_request, Dispatch, refuses, keeps, runs_inline, dispatch, request_callback, drain_jobs,
  drain, run_task, release_all, cleanup_http_context, Event, requests, takes, performs, runs_task,
  drains, step_at, steps, initial,
}
use koya_plugins.Http.Requests.Promises.{
  makes, settles, frees_resolve, frees_reject, promises_made, Within, At, Inv, Ok, release-tally,
  settle-tally, settled-At,
}

settle-Ok : (s : HttpContext) (job : Job) → Ok s → Ok (settle_request s job)
unfolding settle_request release_promise
settle-Ok s job ok = elim (Option-cases (find job.complete s.promises)) [
  | inl e ↦ rw (e, settle_request) ok
  | inr (p, e) ↦ rw (e, settle_request) (chosen p e (s.active && not p.released) refl)
]
  where
    chosen :
        (p : RequestPromiseContext)
        → find job.complete s.promises ≡ some p
        → (test : Bool) → (s.active && not p.released) ≡ test
        → Ok (
            if test
            then release_promise
                (record s {
                  pending = erase job.complete s.pending;
                  log = s.log ++ call_effect job p ∷ [];
                })
                job.complete
                p
            else s)
    chosen p e false t = ok
    chosen p e true t = λ within.
        let fresh : p.released ≡ false = ground (arith, t) in
        let total = settle-tally promises_made s.log (call_effect job p) job.complete p fresh in
        let inv : Inv s.next_request_id s.pending s.promises s.log =
          ok (omega (arith, within, total)) in
        let one : entries job.complete s.pending ≡ 1 =
          ground (arith, (inv.at job.complete).unreleased p e, fresh) in
        record {
          counted = omega (arith, inv.counted, total);
          at = λ a.
              settled-At a s.next_request_id s.pending s.promises s.log p job e fresh one
                (inv.at a);
        }

dispatch-Ok : (s : HttpContext) (job : Job) (d : Dispatch) → Ok s → Ok (dispatch s job d)
dispatch-Ok s job refuses ok = ok
dispatch-Ok s job keeps ok = ok
dispatch-Ok s job runs_inline ok = settle-Ok s job ok

callback-Ok : (s : HttpContext) (job : Job) (d : Dispatch) → Ok s → Ok (request_callback s job d)
unfolding request_callback
callback-Ok s job d ok = elim (Option-cases (find job.complete s.promises)) [
  | inl e ↦ rw (e, request_callback) ok
  | inr (p, e) ↦
      rw (e, request_callback)
        (if_keeps Ok (s.active && not p.released) (dispatch-Ok s job d ok) ok)
]

drain_jobs-Ok :
    (host : Job → Dispatch) (s : HttpContext) (jobs : List Job) → Ok s → Ok (drain_jobs host s jobs)
unfolding drain_jobs
drain_jobs-Ok host s [] ok = ok
drain_jobs-Ok host s (job ∷ jobs) ok =
    drain_jobs-Ok host (request_callback s job (host job)) jobs (callback-Ok s job (host job) ok)

run_task-Ok : (s : HttpContext) (jobs : List Job) → Ok s → Ok (run_task s jobs)
unfolding run_task
run_task-Ok s [] ok = ok
run_task-Ok s (job ∷ jobs) ok = settle-Ok (record s { tasks = jobs }) job ok

made-At :
    (a next : ℕ) (pending : Table ℕ) (promises : Table RequestPromiseContext) (log : List Effect)
    (p : RequestPromiseContext)
    → p.released ≡ false
    → At a next pending promises log
    → At a (1 + next) ((next, next) ∷ pending) ((next, p) ∷ promises) (log ++ made next ∷ [])
unfolding find
made-At a next pending promises log p fresh at_a = record {
  fresh = λ le. ground (arith, sums (makes a), at_a.fresh);
  once = ground (arith, sums (makes a), at_a.once, at_a.fresh);
  known = omega (arith, sums (makes a), at_a.known);
  split = omega (arith, sums (makes a), sums (settles a), at_a.split);
  resolves = omega (arith, sums (frees_resolve a), sums (settles a), at_a.resolves);
  rejects = omega (arith, sums (frees_reject a), sums (settles a), at_a.rejects);
  unreleased = λ q h. elim (Bool-cases (next == a)) [
    | inl same ↦
        let eq : p ≡ q = cc (rw same at h) in
        rw (← eq, fresh, same) (ground (arith, same, at_a.fresh, at_a.split))
    | inr other ↦ rw other (omega (arith, at_a.unreleased q (rw other at h)))
  ];
}
  where
    sums : (w : Effect → ℕ) → tally w (log ++ made next ∷ []) ≡ tally w log + w (made next)
    sums w = omega (arith, tally-append w log (made next ∷ []))

add_request-Ok :
    (s : HttpContext) (o : RequestOptions) (body : Bytes) (parts : List MultipartPart)
    → Ok s
    → Ok (add_request s o body parts)
add_request-Ok s o body parts ok within =
    rw (emplace_fresh s.next_request_id s.next_request_id s.pending none_pending, next)
      (record {
        counted = omega (arith, inv.counted, total);
        at = λ a.
            made-At a s.next_request_id s.pending s.promises s.log
              (record { resolve = o.resolve; reject = o.reject; released = false }) refl (inv.at a);
      })
  where
    total :
        tally promises_made (s.log ++ made s.next_request_id ∷ []) ≡ tally promises_made s.log + 1
    total = omega (arith, tally-append promises_made s.log (made s.next_request_id ∷ []))

    inv : Inv s.next_request_id s.pending s.promises s.log
    inv = ok (omega (arith, within, total))

    none_pending : entries s.next_request_id s.pending ≡ 0
    none_pending =
        let here = inv.at s.next_request_id in omega (arith, here.split, here.fresh (omega arith))

    next : (s.next_request_id + 1) % 2 ^ 64 ≡ 1 + s.next_request_id
    next = omega (arith, inv.counted, within, total)

request-Ok : (s : HttpContext) (o : RequestOptions) → Ok s → Ok (js_request s o)
unfolding js_request
request-Ok s o ok = if_keeps Ok (is_empty o.url) ok (elim (Option-cases (jsvalue_to_body o.body)) [
  | inl e ↦ rw e ok
  | inr (body, e) ↦ rw e (elim (Option-cases (jsvalue_to_multipart o.multipart)) [
    | inl d ↦ rw d ok
    | inr (parts, d) ↦ rw d (add_request-Ok s o body parts ok)
  ])
])

module _ (lib : Library) where
  post-Ok : (s : HttpContext) (job : Option Job) → Ok s → Ok (post s job)
  post-Ok s none ok = ok
  post-Ok s (some job) ok = ok

  take-Ok : (s : HttpContext) (jobs : List Job) → Ok s → Ok (take_job s jobs)
  unfolding take_job
  take-Ok s [] ok = ok
  take-Ok s (job ∷ jobs) ok = ok

  drain-Ok : (host : Job → Dispatch) (s : HttpContext) → Ok s → Ok (drain host s)
  unfolding drain
  drain-Ok host s ok = drain_jobs-Ok host (record s { done = [] }) s.done ok

  step-Ok : (phase : Phase) (s : HttpContext) (e : Event) → Ok s → Ok (step_at lib phase s e)
  unfolding step_at
  step-Ok terminated s e ok = ok
  step-Ok idle s (requests o) ok = request-Ok s o ok
  step-Ok idle s takes ok = take-Ok s s.waiting ok
  step-Ok idle s performs ok = ok
  step-Ok idle s (drains host) ok = drain-Ok host s ok
  step-Ok idle s runs_task ok = run_task-Ok s s.tasks ok
  step-Ok (working job) s (requests o) ok = request-Ok s o ok
  step-Ok (working job) s takes ok = ok
  step-Ok (working job) s performs ok = post-Ok s (perform lib job) ok
  step-Ok (working job) s (drains host) ok = drain-Ok host s ok
  step-Ok (working job) s runs_task ok = run_task-Ok s s.tasks ok

  steps-Ok : (s : HttpContext) (events : List Event) → Ok s → Ok (steps lib s events)
  unfolding steps
  steps-Ok s [] ok = ok
  steps-Ok s (e ∷ events) ok = steps-Ok (step_at lib s.worker s e) events (step-Ok s.worker s e ok)

-- The promises of these entries are not released.
abbrev Live : Table RequestPromiseContext → Table ℕ → Type 0
Live promises t =
    (k : ℕ)
    → 1 ≤ entries k t
    → (p : RequestPromiseContext) × (find k promises ≡ some p) × (p.released ≡ false)

rest-Live :
    (k v : ℕ) (t : Table ℕ) (promises : Table RequestPromiseContext) (p : RequestPromiseContext)
    → ((j : ℕ) → entries j ((k, v) ∷ t) ≤ 1)
    → Live promises ((k, v) ∷ t)
    → Live (replace k p promises) t
rest-Live k v t promises p one live j le =
    let other : (k == j) ≡ false = ground (arith, one j, le) in
    let (q, e, fresh) = live j (ground (arith, le)) in
    (q, find-replace_other k j promises p other ∙ e, fresh)

-- What the release of these entries adds to the log.
abbrev Frees : ℕ → HttpContext → Table ℕ → HttpContext → Type 0
Frees a s t s' =
    (tally (makes a) s'.log ≡ tally (makes a) s.log)
    × (tally (settles a) s'.log ≡ tally (settles a) s.log)
    × (tally (frees_resolve a) s'.log ≡ tally (frees_resolve a) s.log + entries a t)
    × (tally (frees_reject a) s'.log ≡ tally (frees_reject a) s.log + entries a t)

release_all-cons :
    (a k v : ℕ) (s : HttpContext) (t : Table ℕ) (p : RequestPromiseContext)
    → find k s.promises ≡ some p
    → p.released ≡ false
    → Frees a (release_promise s k p) t (release_all (release_promise s k p) t)
    → Frees a s ((k, v) ∷ t) (release_all s ((k, v) ∷ t))
unfolding release_all release_promise
release_all-cons a k v s t p e fresh rest =
    rw (e, release_all)
      (omega (
        arith,
        release-tally (makes a) s.log k p fresh,
        release-tally (settles a) s.log k p fresh,
        release-tally (frees_resolve a) s.log k p fresh,
        release-tally (frees_reject a) s.log k p fresh,
        rest,
      ))

release_all-Frees :
    (a : ℕ) (s : HttpContext) (t : Table ℕ)
    → ((k : ℕ) → entries k t ≤ 1)
    → Live s.promises t
    → Frees a s t (release_all s t)
unfolding release_all release_promise
release_all-Frees a s [] one live = omega arith
release_all-Frees a s ((k, v) ∷ t) one live =
    let front = live k (ground arith) in
    release_all-cons a k v s t (front.0) (front.1) (front.2) (
      release_all-Frees a (release_promise s k (front.0)) t (λ j. ground (arith, one j))
        (rest-Live k v t s.promises (record (front.0) { released = true }) one live))

pending-Live :
    (s : HttpContext) → Inv s.next_request_id s.pending s.promises s.log → Live s.promises s.pending
pending-Live s inv k le =
    let here = inv.at k in
    let found = find_present k s.promises (omega (arith, here.known, here.split, le)) in
    (found.0, found.1, ground (arith, here.unreleased (found.0) (found.1), le))

-- Whatever requests a script makes, whatever the worker, the network and the host make of them, in
-- whatever order, and before the identifiers wrap around: an identifier stands for at most one
-- promise, which is pending or was settled exactly once; both of its functions were freed as often
-- as it was settled, and after the shutdown exactly once, with no further settlement.
pub requests_settled_once :
    (lib : Library) (events : List Event) (a : ℕ)
    → Within (steps lib initial events).log
    → let s = steps lib initial events in
      (tally (makes a) s.log ≤ 1)
      × (tally (settles a) s.log + entries a s.pending ≡ tally (makes a) s.log)
      × (tally (frees_resolve a) s.log ≡ tally (settles a) s.log)
      × (tally (frees_reject a) s.log ≡ tally (settles a) s.log)
      × (tally (settles a) (cleanup_http_context s).log ≡ tally (settles a) s.log)
      × (tally (frees_resolve a) (cleanup_http_context s).log ≡ tally (makes a) s.log)
      × (tally (frees_reject a) (cleanup_http_context s).log ≡ tally (makes a) s.log)
unfolding cleanup_http_context find
requests_settled_once lib events a within = omega (
  arith,
  here.once,
  here.split,
  here.resolves,
  here.rejects,
  release_all-Frees a (record s { active = false; pending = [] }) s.pending
      (λ k. let at_k = inv.at k in omega (arith, at_k.once, at_k.split)) (pending-Live s inv),
)
  where
    s : HttpContext
    s = steps lib initial events

    start : Ok initial
    start = λ w. record {
      counted = omega arith;
      at = λ k. record {
        fresh = λ le. omega arith;
        once = omega arith;
        known = omega arith;
        split = omega arith;
        resolves = omega arith;
        rejects = omega arith;
        unreleased = λ p h. absurd (cc h);
      };
    }

    inv : Inv s.next_request_id s.pending s.promises s.log
    inv = steps-Ok lib initial events start within

    here : At a s.next_request_id s.pending s.promises s.log
    here = inv.at a
