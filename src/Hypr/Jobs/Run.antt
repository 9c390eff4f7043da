-- ===== src/Hypr/Jobs/Run.antt =====
-- One command of hypr/src/module.cpp from its sending to its answer.
use koya_plugins.Base.{
  ℕ, ◌≡◌, refl, ap, ◌∙◌, Bool, true, false, Option, none, some, List, [], ◌∷◌, ◌++◌, append_assoc,
  arith, Bytes, c_string, find, erase, emplace, ◌==◌, if◌then◌else◌, Option-cases, inl, inr,
}
use koya_plugins.Hypr.Types.{JobType, PendingPromise, JobResult}
use koya_plugins.Hypr.Socket.{Received}
use koya_plugins.Hypr.Jobs.{
  Jobs, Settled, failure_text, exception, parsed, text, Effect, new_promise, join, call, free_value,
  enqueues, finishes, updates, start_job, enqueue_job_promise, job_result, finish_job, remove_id,
  is_at_work, verdict, settle, join_worker, settle_one, settle_all, update, step, steps,
}

-- No job is under way.
abbrev pub at_rest : ℕ → List Effect → Jobs
at_rest id log = record {
  next_job_id = id;
  promises = [];
  threads = [];
  at_work = [];
  results = [];
  log = log;
}

-- The log of one job whose promise got an answer.
abbrev pub one_job : ℕ → PendingPromise → List Effect → ℕ → Settled → List Effect
one_job id p log function value =
    log
    ++ new_promise id p
      ∷ join id
      ∷ call id function value
      ∷ free_value id p.resolve
      ∷ free_value id p.reject
      ∷ []

-- What the script should be told of a reply: success is told to the resolving function.
told : (Bytes → Option ℕ) → PendingPromise → JobType → Bool → Bytes → ℕ × Settled
told parse p type false out = (p.reject, failure_text)
told parse p JobType.send true out = (p.resolve, text (c_string out))
told parse p JobType.json true out = elim (parse out) [
  | none ↦ (p.reject, exception)
  | some v ↦ (p.resolve, parsed v)
]

pub answer : (Bytes → Option ℕ) → PendingPromise → Option Received → ℕ × Settled
unfolding told
answer parse p none = (p.reject, failure_text)
answer parse p (some r) = told parse p p.type r.ok r.out

id_found : (id : ℕ) → (id == id) ≡ true
id_found id = ground arith

abbrev chosen : PendingPromise → Bool × Settled → ℕ × Settled
chosen p v = (if v.0 then p.resolve else p.reject, v.1)

verdict-told :
    (parse : Bytes → Option ℕ) (id : ℕ) (p : PendingPromise) (type : JobType) (ok : Bool)
    (out : Bytes)
    → chosen p (verdict parse type (record { id = id; success = ok; payload = out }))
      ≡ told parse p type ok out
unfolding verdict told
verdict-told parse id p JobType.send true out = refl
verdict-told parse id p JobType.send false out = refl
verdict-told parse id p JobType.json false out = refl
verdict-told parse id p JobType.json true out = elim (Option-cases (parse out)) [
  | inl bad ↦ rw (bad, verdict, told)
  | inr (v, good) ↦ rw (good, verdict, told)
]

verdict-answer :
    (parse : Bytes → Option ℕ) (id : ℕ) (p : PendingPromise) (received : Option Received)
    → chosen p (verdict parse p.type (job_result id received)) ≡ answer parse p received
unfolding job_result answer verdict
verdict-answer parse id p none = failed p.type
  where
    failed :
        (type : JobType)
        → chosen p (verdict parse type (record { id = id; success = false; payload = [] }))
          ≡ (p.reject, failure_text)
    failed JobType.send = refl
    failed JobType.json = refl
verdict-answer parse id p (some r) = verdict-told parse id p p.type r.ok r.out

result_id : (id : ℕ) (received : Option Received) → (job_result id received).id ≡ id
unfolding job_result
result_id id none = refl
result_id id (some r) = refl

-- The settling loop on one job that has its promise.
settle_all-one :
    (parse : Bytes → Option ℕ) (id : ℕ) (r : JobResult) (p : PendingPromise)
    → r.id ≡ id
    → (settle_all parse (r ∷ []) ((id, tt) ∷ []) ((id, p) ∷ [])).2 ≡ join r.id ∷ settle parse r p
unfolding settle_all settle_one join_worker find erase
settle_all-one parse id r p e = ground arith

-- With no job under way, one command whose worker ends before the next update has, after that update,
-- its thread joined, one of its functions called and both freed. A command whose connection or
-- transfer failed is rejected with the failure text; a reply that was received resolves, for a plain
-- command with the text up to its first NUL byte, and for a query with the parsed value, or rejects
-- with the exception if the reply cannot be parsed.
pub job_run :
    (parse : Bytes → Option ℕ) (id : ℕ) (log : List Effect) (p : PendingPromise)
    (received : Option Received)
    → let a = answer parse p received in
      (steps parse (at_rest id log) (enqueues p ∷ finishes id received ∷ updates ∷ [])).log
      ≡ one_job id p log a.0 a.1
unfolding steps step enqueue_job_promise start_job finish_job remove_id is_at_work update settle
    emplace
job_run parse id log p received = rw (id_found id) (
    append_assoc log (new_promise id p ∷ []) _
    ∙ ap (λ rest. log ++ new_promise id p ∷ rest)
        (settle_all-one parse id r p (result_id id received)
          ∙ ap (λ i. settling i (chosen p (verdict parse p.type r))) (result_id id received)
          ∙ ap (settling id) (verdict-answer parse id p received)))
  where
    r : JobResult
    r = job_result id received

    settling : ℕ → ℕ × Settled → List Effect
    settling i v = join i ∷ call i v.0 v.1 ∷ free_value i p.resolve ∷ free_value i p.reject ∷ []
