-- ===== src/Hypr/Jobs/Ledger.antt =====
-- What the script may rely on for the commands that it sends through hypr/src/module.cpp.
use koya_plugins.Base.{
  ℕ, ◌+◌, ◌*◌, ◌^◌, ◌<◌, ◌≤◌, ◌≡◌, Option, List, [], ◌∷◌, arith, Bytes, entries, length, tally,
  tally-append, leb, Bool-cases, inl, inr,
}
use koya_plugins.Hypr.Types.{PendingPromise}
use koya_plugins.Hypr.Jobs.{
  Jobs, new_promise, Event, enqueues, finishes, updates, max_pending, start_job,
  enqueue_job_promise, finish_job, is_at_work, settle_all, update, step, steps, no_jobs,
}
use koya_plugins.Hypr.Jobs.Accounting.{
  made, joined, called, freed, handed, returned, keeps, promises_made, result_ids, same_id,
  settle_all-Completes,
}
use koya_plugins.Hypr.Jobs.Invariant.{
  Unwrapped, Inv, Inv-no_jobs, start_job-Inv, update-Inv, finish_job-Inv,
}

start_job-Unwrapped :
    (s : Jobs) (p : PendingPromise)
    → Unwrapped (start_job s p)
    → 2 + tally promises_made s.log < 2 ^ 32
unfolding start_job
start_job-Unwrapped s p u =
    omega (arith, u, tally-append promises_made s.log (new_promise s.next_job_id p ∷ []))

enqueue-Inv :
    (s : Jobs) (p : PendingPromise)
    → Inv s
    → Unwrapped (enqueue_job_promise s p).0
    → Inv (enqueue_job_promise s p).0
unfolding enqueue_job_promise
enqueue-Inv s p inv u = elim (Bool-cases (leb max_pending (length s.promises))) [
  | inl full ↦ rw full inv
  | inr room ↦
      rw room (start_job-Inv s inv p (ground arith) (start_job-Unwrapped s p (rw room at u)))
]

step-Inv :
    (parse : Bytes → Option ℕ) (s : Jobs) (e : Event)
    → Inv s
    → Unwrapped (step parse s e)
    → Inv (step parse s e)
unfolding step
step-Inv parse s (enqueues p) inv u = enqueue-Inv s p inv u
step-Inv parse s (finishes id received) inv u = elim (Bool-cases (is_at_work id s.at_work)) [
  | inl there ↦ rw there (finish_job-Inv s id received inv there)
  | inr gone ↦ rw gone inv
]
step-Inv parse s updates inv u = update-Inv s inv parse

-- No step takes a promise out of the log.
step-log :
    (parse : Bytes → Option ℕ) (s : Jobs) (e : Event)
    → tally promises_made s.log ≤ tally promises_made (step parse s e).log
unfolding step enqueue_job_promise start_job finish_job update
step-log parse s (enqueues p) =
    ground (arith, tally-append promises_made s.log (new_promise s.next_job_id p ∷ []))
step-log parse s (finishes id received) = ground arith
step-log parse s updates =
    omega
      (arith, tally-append promises_made s.log (settle_all parse s.results s.threads s.promises).2)

steps-log :
    (parse : Bytes → Option ℕ) (s : Jobs) (events : List Event)
    → tally promises_made s.log ≤ tally promises_made (steps parse s events).log
unfolding steps
steps-log parse s [] = omega arith
steps-log parse s (e ∷ events) =
    omega (arith, step-log parse s e, steps-log parse (step parse s e) events)

-- A step makes one promise at most.
step-few :
    (parse : Bytes → Option ℕ) (s : Jobs) (e : Event)
    → tally promises_made (step parse s e).log ≤ 1 + tally promises_made s.log
unfolding step enqueue_job_promise start_job finish_job update
step-few parse s (enqueues p) =
    ground (arith, tally-append promises_made s.log (new_promise s.next_job_id p ∷ []))
step-few parse s (finishes id received) = ground arith
step-few parse s updates = omega (
  arith,
  tally-append promises_made s.log (settle_all parse s.results s.threads s.promises).2,
  (settle_all-Completes parse 0 s.results s.threads s.promises).none_counted,
)

steps-few :
    (parse : Bytes → Option ℕ) (s : Jobs) (events : List Event)
    → tally promises_made (steps parse s events).log ≤ length events + tally promises_made s.log
unfolding steps
steps-few parse s [] = omega arith
steps-few parse s (e ∷ events) =
    omega (arith, step-few parse s e, steps-few parse (step parse s e) events)

pub steps-Unwrapped :
    (parse : Bytes → Option ℕ) (events : List Event)
    → 1 + length events < 2 ^ 32
    → Unwrapped (steps parse no_jobs events)
steps-Unwrapped parse events h = omega (arith, h, steps-few parse no_jobs events)

steps-Inv :
    (parse : Bytes → Option ℕ) (s : Jobs) (events : List Event)
    → Inv s
    → Unwrapped (steps parse s events)
    → Inv (steps parse s events)
unfolding steps
steps-Inv parse s [] inv u = inv
steps-Inv parse s (e ∷ events) inv u =
    steps-Inv parse (step parse s e) events
      (step-Inv parse s e inv (omega (arith, u, steps-log parse (step parse s e) events))) u

-- Whatever commands are sent, in whatever order the workers end and the updates come, and before the
-- numbers of jobs wrap around: a number stands for at most one promise, which is either still in the
-- table or had exactly one of its functions called and two frees made; each function value was freed as
-- often as it was handed over as a resolving or a rejecting function, less where it stands in the table;
-- and the worker's thread is either in the table or was joined exactly once.
pub jobs_settled_once :
    (parse : Bytes → Option ℕ) (events : List Event) (a : ℕ)
    → let s = steps parse no_jobs events in
      Unwrapped s
      → (tally (made a) s.log ≤ 1)
        × (tally (called a) s.log + entries a s.promises ≡ tally (made a) s.log)
        × (tally (freed a) s.log + 2 * entries a s.promises ≡ 2 * tally (made a) s.log)
        × (tally (joined a) s.log + entries a s.threads ≡ tally (made a) s.log)
        × ((f : ℕ) → tally (returned f) s.log + tally (keeps f) s.promises ≡ tally (handed f) s.log)
jobs_settled_once parse events a u =
    let inv = steps-Inv parse no_jobs events Inv-no_jobs u in
    (inv.once a, inv.answered a, inv.owned a, inv.threaded a, inv.balanced)

-- Whatever commands are sent, in whatever order the workers end and the updates come, and before the
-- numbers of jobs wrap around: at most 64 promises are pending, and each of them has its job in
-- exactly one place, with a worker or among the results; no place holds a job whose promise is gone.
pub jobs_tracked :
    (parse : Bytes → Option ℕ) (events : List Event)
    → let s = steps parse no_jobs events in
      Unwrapped s
      → (length s.promises ≤ max_pending)
        × ((a : ℕ)
            → entries a s.promises ≡ tally (same_id a) s.at_work + tally (result_ids a) s.results)
jobs_tracked parse events u =
    let inv = steps-Inv parse no_jobs events Inv-no_jobs u in (inv.bounded, inv.tracked)
