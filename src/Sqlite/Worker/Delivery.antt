-- ===== src/Sqlite/Worker/Delivery.antt =====
-- What becomes of the functions of a promise of sqlite/src/module.cpp.
use koya_plugins.Base.{
  ℕ, ◌+◌, ◌≡◌, ◌≢◌, refl, ap, Bool, List, [], ◌∷◌, ◌++◌, arith, Bytes, Bool-cases, inl, inr, tally,
  tally-append, ◌==◌, if◌then◌else◌,
}
use koya_plugins.Sqlite.Types.{JobType, exec, query, Job, QueryResult, Completion}
use koya_plugins.Sqlite.Handles.{Handles}
use koya_plugins.Sqlite.Worker.{
  Settled, undefined, rows, error, Effect, call, free_value, Answer, sqlite_ok, sqlite_done,
  error_text, deliver, deliver_all, waiting, State, Request, job_of, Event, submits, takes,
  looks_up, updates, runs, steps, free_jobs, free_completions, shutdown, initial,
}
use koya_plugins.Sqlite.Worker.Fifo.{submitted, jobs_of, with_worker, pending, jobs_in_order}

abbrev one_if : Bool → ℕ
one_if b = if b then 1 else 0

abbrev pub freed : ℕ → Effect → ℕ
freed f (call g v) = 0
freed f (free_value g) = one_if (g == f)

-- How often a function is one of the two of a job.
abbrev pub owns : ℕ → Job → ℕ
owns f j = one_if (j.resolve == f) + one_if (j.reject == f)

deliver-freed : (f : ℕ) (c : Completion) → tally (freed f) (deliver c) ≡ owns f c.job
unfolding deliver
deliver-freed f c = elim (Bool-cases c.result.ok) [
  | inl e ↦ rw (e, deliver) (omega arith)
  | inr e ↦ rw (e, deliver) (omega arith)
]

deliver_all-freed :
    (f : ℕ) (cs : List Completion) → tally (freed f) (deliver_all cs) ≡ tally (owns f) (jobs_of cs)
unfolding deliver_all
deliver_all-freed f [] = refl
deliver_all-freed f (c ∷ cs) = omega (
  arith,
  tally-append (freed f) (deliver c) (deliver_all cs),
  deliver-freed f c,
  deliver_all-freed f cs,
)

free_jobs-freed : (f : ℕ) (js : List Job) → tally (freed f) (free_jobs js) ≡ tally (owns f) js
unfolding free_jobs
free_jobs-freed f [] = refl
free_jobs-freed f (j ∷ js) = omega (arith, free_jobs-freed f js)

free_completions-freed :
    (f : ℕ) (cs : List Completion)
    → tally (freed f) (free_completions cs) ≡ tally (owns f) (jobs_of cs)
unfolding free_completions
free_completions-freed f [] = refl
free_completions-freed f (c ∷ cs) = omega (arith, free_completions-freed f cs)

-- Whatever the script asked for and however far the jobs came: if the worker holds no job when it is
-- joined, then after the shutdown each settling function was freed exactly as often as a job took it.
pub functions_freed :
    (events : List Event) (f : ℕ)
    → (steps initial events).worker ≡ waiting
    → tally (freed f) (shutdown (steps initial events)).log ≡ tally (owns f) (submitted events)
unfolding shutdown
functions_freed events f w =
    let (delivered, logged, all) = jobs_in_order events in
    omega (
      arith,
      ap (tally (freed f)) logged,
      ap (tally (owns f)) all,
      tally-append (freed f) s.log (free_jobs s.jobs ++ free_completions s.completions),
      tally-append (freed f) (free_jobs s.jobs) (free_completions s.completions),
      tally-append (owns f) (jobs_of delivered) (pending s),
      tally-append (owns f) (jobs_of s.completions) (with_worker s.worker ++ s.jobs),
      tally-append (owns f) (with_worker s.worker) s.jobs,
      ap (λ p. tally (owns f) (with_worker p)) w,
      deliver_all-freed f delivered,
      free_jobs-freed f s.jobs,
      free_completions-freed f s.completions,
    )
  where
    s : State
    s = steps initial events

-- SQLite did what the job asked for.
abbrev pub Succeeds : JobType → Answer → Type 0
Succeeds exec a = a.exec_rc ≡ sqlite_ok
Succeeds query a = (a.prepare_rc ≡ sqlite_ok) × (a.last_rc ≡ sqlite_done)

abbrev pub value_of : JobType → Answer → Settled
value_of exec a = undefined
value_of query a = rows a.rows

-- No job is under way.
abbrev pub at_rest : Handles → List Effect → State
at_rest handles log = record {
  handles = handles;
  jobs = [];
  worker = waiting;
  completions = [];
  log = log;
}

abbrev pub one_job : Request → Answer → List Event
one_job r a = submits r ∷ takes ∷ looks_up ∷ runs a ∷ updates ∷ []

-- One function was called and both were freed.
abbrev pub settles : Request → ℕ → Settled → List Effect
settles r function value = call function value ∷ free_value r.resolve ∷ free_value r.reject ∷ []

abbrev completed : Request → QueryResult → Completion
completed r result = record { job = job_of r; result = result }

-- A failure that is told to the rejecting function, by the message and the code in one text.
abbrev pub Rejects : Request → List Effect → Type 0
Rejects r es =
    (message : Bytes) × (code : ℕ) × (message ≢ [])
    × (es ≡ settles r r.reject (error (error_text message code)))
