-- ===== src/Hypr/Jobs.antt =====
-- enqueue_job_promise and the settling half of hypr_update_callback of hypr/src/module.cpp, with the
-- workers that run the commands. A worker is taken as one step, from its start to the push of its
-- result; `Socket` models what it does with its socket.
pub mod Accounting
pub mod Invariant
pub mod Ledger
pub mod Run
pub mod Shutdown
mod Tests
use koya_plugins.Base.{
  ℕ, ◌+◌, ◌%◌, ◌^◌, Bool, true, false, Option, none, some, List, [], ◌∷◌, ◌++◌, Bytes, codes,
  c_string, Table, find, erase, emplace, length, leb, ◌==◌, if◌then◌else◌,
}
use koya_plugins.Hypr.Types.{JobType, PendingPromise, JobResult}
use koya_plugins.Hypr.Socket.{Received}

-- The value that a settling function is called with.
pub data Settled : Type 0 where
  failure_text : Settled
  exception : Settled
  parsed : (value : ℕ) → Settled
  text : Bytes → Settled

pub data Effect : Type 0 where
  -- JS_NewPromiseCapability, under the number of the job
  new_promise : (id : ℕ) → PendingPromise → Effect
  -- the worker's thread was joined
  join : (id : ℕ) → Effect
  -- JS_Call of a settling function
  call : (id function : ℕ) → Settled → Effect
  -- JS_FreeValue of a settling function
  free_value : (id function : ℕ) → Effect

-- The part of `HyprState` that jobs use. `threads` is jobThreads; `at_work` holds the jobs whose
-- worker has not pushed its result.
pub record Jobs : Type 0 where
  pub next_job_id : ℕ
  pub promises : Table PendingPromise
  pub threads : Table (Unit {0})
  pub at_work : List ℕ
  pub results : List JobResult
  pub log : List Effect

pub data Reply : Type 0 where
  throws_internal_error : Reply
  promise : (id : ℕ) → Reply

abbrev pub max_pending : ℕ
max_pending = 64

pub start_job : Jobs → PendingPromise → Jobs
start_job s p =
    let id = s.next_job_id in
    record {
      next_job_id = (id + 1) % 2 ^ 32;
      promises = emplace id p s.promises;
      threads = emplace id tt s.threads;
      at_work = s.at_work ++ id ∷ [];
      results = s.results;
      log = s.log ++ new_promise id p ∷ [];
    }

-- `p` holds the functions that JS_NewPromiseCapability returns, if it is called, and the job's type.
pub enqueue_job_promise : Jobs → PendingPromise → Jobs × Reply
unfolding start_job
enqueue_job_promise s p =
    if leb max_pending (length s.promises)
    then (s, throws_internal_error)
    else (start_job s p, promise s.next_job_id)

-- The result that a worker pushes: success only if the command was sent whole and the reply was
-- received; a connection that failed is `none`.
pub job_result : ℕ → Option Received → JobResult
job_result id none = record { id = id; success = false; payload = [] }
job_result id (some r) = record { id = id; success = r.ok; payload = r.out }

pub remove_id : ℕ → List ℕ → List ℕ
remove_id id [] = []
remove_id id (j ∷ ids) = if j == id then ids else j ∷ remove_id id ids

-- The worker of one job ends, with the mutex of the results held.
pub finish_job : Jobs → ℕ → Option Received → Jobs
unfolding remove_id
finish_job s id received = record s {
  at_work = remove_id id s.at_work;
  results = s.results ++ job_result id received ∷ [];
}

-- What the script is told, and by which function. `parse` is JS_ParseJSON, `none` where it throws.
pub verdict : (Bytes → Option ℕ) → JobType → JobResult → Bool × Settled
verdict parse type r =
    let reply : Bool × Settled = elim type [
      | JobType.json ↦ (elim (parse r.payload) [
        | none ↦ (false, exception)
        | some v ↦ (true, parsed v)
      ])
      | JobType.send ↦ (true, text (c_string r.payload))
    ] in
    if r.success then reply else (false, failure_text)

pub settle : (Bytes → Option ℕ) → JobResult → PendingPromise → List Effect
settle parse r p =
    let v = verdict parse p.type r in
    call r.id (if v.0 then p.resolve else p.reject) v.1
    ∷ free_value r.id p.resolve
    ∷ free_value r.id p.reject
    ∷ []

-- The loop over the completed jobs, in two parts for each: the thread, then the promise.
pub join_worker : ℕ → Table (Unit {0}) → Table (Unit {0}) × List Effect
join_worker id threads = elim (find id threads) [
  | none ↦ (threads, [])
  | some _ ↦ (erase id threads, join id ∷ [])
]

pub settle_one :
    (Bytes → Option ℕ) → JobResult → Table PendingPromise → Table PendingPromise × List Effect
unfolding settle
settle_one parse r promises = elim (find r.id promises) [
  | none ↦ (promises, [])
  | some p ↦ (erase r.id promises, settle parse r p)
]

pub settle_all :
    (Bytes → Option ℕ)
    → List JobResult
    → Table (Unit {0})
    → Table PendingPromise
    → Table (Unit {0}) × Table PendingPromise × List Effect
unfolding join_worker settle_one
settle_all parse [] threads promises = (threads, promises, [])
settle_all parse (r ∷ completed) threads promises =
    let joined = join_worker r.id threads in
    let settled = settle_one parse r promises in
    let rest = settle_all parse completed joined.0 settled.0 in
    (rest.0, rest.1, joined.1 ++ (settled.1 ++ rest.2))

pub update : (Bytes → Option ℕ) → Jobs → Jobs
update parse s =
    let settled = settle_all parse s.results s.threads s.promises in
    record s { threads = settled.0; promises = settled.1; results = []; log = s.log ++ settled.2 }

-- What happens to the jobs, in any order.
pub data Event : Type 0 where
  enqueues : PendingPromise → Event
  finishes : (id : ℕ) → Option Received → Event
  updates : Event

pub is_at_work : ℕ → List ℕ → Bool
is_at_work id [] = false
is_at_work id (j ∷ ids) = if j == id then true else is_at_work id ids

-- Only a worker that is at work can finish; other events of the kind are none.
pub step : (Bytes → Option ℕ) → Jobs → Event → Jobs
unfolding is_at_work
step parse s (enqueues p) = (enqueue_job_promise s p).0
step parse s (finishes id received) =
    if is_at_work id s.at_work then finish_job s id received else s
step parse s updates = update parse s

pub steps : (Bytes → Option ℕ) → Jobs → List Event → Jobs
steps parse s [] = s
steps parse s (e ∷ events) = steps parse (step parse s e) events

abbrev pub no_jobs : Jobs
no_jobs = record {
  next_job_id = 1;
  promises = [];
  threads = [];
  at_work = [];
  results = [];
  log = [];
}
