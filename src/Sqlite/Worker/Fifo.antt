-- ===== src/Sqlite/Worker/Fifo.antt =====
-- The promises of sqlite/src/module.cpp are settled in the order of the calls that made them.
use koya_plugins.Base.{
  ◌≡◌, refl, ap, sym, ◌∙◌, List, [], ◌∷◌, ◌++◌, append_assoc, append-nil, find, Option-cases, inl,
  inr,
}
use koya_plugins.Sqlite.Types.{Job, QueryResult, Completion}
use koya_plugins.Sqlite.Worker.{
  result_of, invalid_db, deliver, deliver_all, Phase, waiting, holding, running, State, Request,
  job_of, submit, take_job, post, look_up, update, Event, submits, calls, takes, looks_up, updates,
  runs, step_at, steps, initial,
}

-- The jobs that the calls of the script ask for, in order.
abbrev pub submitted : List Event → List Job
submitted [] = []
submitted (submits r ∷ events) = job_of r ∷ submitted events
submitted (e ∷ events) = submitted events

abbrev pub jobs_of : List Completion → List Job
jobs_of [] = []
jobs_of (c ∷ completions) = c.job ∷ jobs_of completions

abbrev pub with_worker : Phase → List Job
with_worker waiting = []
with_worker (holding j) = j ∷ []
with_worker (running j db) = j ∷ []

jobs_of-append : (xs ys : List Completion) → jobs_of (xs ++ ys) ≡ jobs_of xs ++ jobs_of ys
jobs_of-append [] ys = refl
jobs_of-append (c ∷ xs) ys = ap (λ js. c.job ∷ js) (jobs_of-append xs ys)

deliver_all-append :
    (xs ys : List Completion) → deliver_all (xs ++ ys) ≡ deliver_all xs ++ deliver_all ys
unfolding deliver_all
deliver_all-append [] ys = refl
deliver_all-append (c ∷ xs) ys =
    ap (λ es. deliver c ++ es) (deliver_all-append xs ys)
    ∙ sym (append_assoc (deliver c) (deliver_all xs) (deliver_all ys))

-- The jobs that are not yet answered, oldest first.
abbrev pub pending : State → List Job
pending s = jobs_of s.completions ++ (with_worker s.worker ++ s.jobs)

-- The completions that were delivered make up the log, and with the pending jobs all that was asked.
abbrev pub Fifo : State → List Job → Type 0
Fifo s asked =
    (delivered : List Completion) × (s.log ≡ deliver_all delivered)
    × (asked ≡ jobs_of delivered ++ pending s)

-- A step that moves pending jobs on without changing their order.
post-pending :
    (s : State) (j : Job) (r : QueryResult)
    → with_worker s.worker ≡ j ∷ []
    → pending (post s j r) ≡ pending s
unfolding post
post-pending s j r e =
    ap (λ js. js ++ s.jobs) (jobs_of-append s.completions (record { job = j; result = r } ∷ []))
    ∙ append_assoc (jobs_of s.completions) (j ∷ []) s.jobs
    ∙ ap (λ js. jobs_of s.completions ++ (js ++ s.jobs)) (sym e)

take_job-pending :
    (s : State) (jobs : List Job)
    → s.worker ≡ waiting
    → s.jobs ≡ jobs
    → pending (take_job s jobs) ≡ pending s
unfolding take_job
take_job-pending s [] w e = refl
take_job-pending s (j ∷ jobs) w e =
    ap (λ js. jobs_of s.completions ++ js) (sym (ap (λ p. with_worker p ++ s.jobs) w ∙ e))

look_up-pending : (s : State) (j : Job) → s.worker ≡ holding j → pending (look_up s j) ≡ pending s
unfolding look_up
look_up-pending s j w = elim (Option-cases (find j.id s.handles.databases)) [
  | inl e ↦ rw (e, look_up) (post-pending s j invalid_db (ap with_worker w))
  | inr (db, e) ↦
      rw (e, look_up) (ap (λ js. jobs_of s.completions ++ (js ++ s.jobs)) (sym (ap with_worker w)))
]

take_job-log : (s : State) (jobs : List Job) → (take_job s jobs).log ≡ s.log
unfolding take_job
take_job-log s [] = refl
take_job-log s (j ∷ jobs) = refl

look_up-log : (s : State) (j : Job) → (look_up s j).log ≡ s.log
unfolding look_up post
look_up-log s j = elim (Option-cases (find j.id s.handles.databases)) [
  | inl e ↦ rw (e, look_up)
  | inr (db, e) ↦ rw (e, look_up)
]

moved :
    (s s' : State) (asked : List Job)
    → Fifo s asked
    → s'.log ≡ s.log
    → pending s' ≡ pending s
    → Fifo s' asked
moved s s' asked (delivered, logged, all) l p =
    (delivered, l ∙ logged, all ∙ ap (λ js. jobs_of delivered ++ js) (sym p))

-- The jobs of one event.
abbrev asks : Event → List Job
asks e = submitted (e ∷ [])

submit-Fifo :
    (s : State) (r : Request) (asked : List Job)
    → Fifo s asked
    → Fifo (submit s r) (asked ++ job_of r ∷ [])
unfolding submit
submit-Fifo s r asked (delivered, logged, all) = (
  delivered,
  logged,
  ap (λ js. js ++ job_of r ∷ []) all
      ∙ append_assoc (jobs_of delivered) (pending s) (job_of r ∷ [])
      ∙ ap (λ js. jobs_of delivered ++ js)
          (append_assoc (jobs_of s.completions) (with_worker s.worker ++ s.jobs) (job_of r ∷ [])
            ∙ ap (λ js. jobs_of s.completions ++ js)
                (append_assoc (with_worker s.worker) s.jobs (job_of r ∷ []))),
)

update-Fifo : (s : State) (asked : List Job) → Fifo s asked → Fifo (update s) asked
unfolding update
update-Fifo s asked (delivered, logged, all) = (
  delivered ++ s.completions,
  ap (λ es. es ++ deliver_all s.completions) logged
      ∙ sym (deliver_all-append delivered s.completions),
  all
      ∙ sym (
          append_assoc (jobs_of delivered) (jobs_of s.completions) (with_worker s.worker ++ s.jobs))
      ∙ ap (λ js. js ++ (with_worker s.worker ++ s.jobs))
          (sym (jobs_of-append delivered s.completions)),
)

step_at-Fifo :
    (phase : Phase) (s : State) (e : Event) (asked : List Job)
    → s.worker ≡ phase
    → Fifo s asked
    → Fifo (step_at phase s e) (asked ++ asks e)
unfolding step_at
step_at-Fifo phase s (submits r) asked w f = submit-Fifo s r asked f
step_at-Fifo phase s (calls c) asked w f = rw (append-nil asked) f
step_at-Fifo phase s updates asked w f = rw (append-nil asked) (update-Fifo s asked f)
step_at-Fifo waiting s takes asked w f =
    rw (append-nil asked) (
      moved s (take_job s s.jobs) asked f (take_job-log s s.jobs)
        (take_job-pending s s.jobs w refl))
step_at-Fifo (holding j) s looks_up asked w f =
    rw (append-nil asked) (moved s (look_up s j) asked f (look_up-log s j) (look_up-pending s j w))
step_at-Fifo (running j db) s (runs a) asked w f = rw (append-nil asked) (
    moved s (post s j (result_of j.type a)) asked f refl
      (post-pending s j (result_of j.type a) (ap with_worker w)))
step_at-Fifo phase s event asked w f = rw (append-nil asked) f

submitted-cons :
    (e : Event) (events : List Event) → submitted (e ∷ events) ≡ asks e ++ submitted events
submitted-cons (submits r) events = refl
submitted-cons e events = refl

steps-Fifo :
    (s : State) (events : List Event) (asked : List Job)
    → Fifo s asked
    → Fifo (steps s events) (asked ++ submitted events)
unfolding steps
steps-Fifo s [] asked f = rw (append-nil asked) f
steps-Fifo s (e ∷ events) asked f =
    rw (submitted-cons e events, ← append_assoc asked (asks e) (submitted events))
      (steps-Fifo (step_at s.worker s e) events (asked ++ asks e)
        (step_at-Fifo s.worker s e asked refl f))

-- Whatever the script calls and however the worker and the updates come in between, the effects on
-- promises are the deliveries of some completions, and the jobs of these, then those whose completion
-- waits for an update, then the worker's, then the queued ones, are the jobs that the script asked
-- for, in the order of its calls: each is delivered at most once, and none is lost or overtaken.
pub jobs_in_order : (events : List Event) → Fifo (steps initial events) (submitted events)
unfolding deliver_all
jobs_in_order events = steps-Fifo initial events [] ([], refl, refl)
