-- ===== src/Sqlite/Worker.antt =====
-- js_exec, js_query, worker_thread_body, scriptUpdate and scriptShutdown of sqlite/src/module.cpp. The
-- reading of one column of a row is left out: a row is given as it is stored.
pub mod Fifo
pub mod Delivery
use koya_plugins.Base.{
  ℕ, ◌%◌, ◌^◌, Bool, true, false, Option, none, some, List, [], ◌∷◌, ◌++◌, Bytes, codes, c_string,
  to_string, is_empty, find, if◌then◌else◌, ◌==◌,
}
use koya_plugins.Sqlite.Types.{JobType, exec, query, Job, QueryResultRow, QueryResult, Completion}
use koya_plugins.Sqlite.Handles.{Handles, Call, run_call, close_databases, no_handles}

-- The value that a settling function is called with.
pub data Settled : Type 0 where
  undefined : Settled
  rows : List QueryResultRow → Settled
  -- the Error that JS_ThrowInternalError makes, with its text
  error : (text : Bytes) → Settled

pub data Effect : Type 0 where
  call : (function : ℕ) → Settled → Effect
  free_value : (function : ℕ) → Effect

-- What the calls of SQLite return for one job: of sqlite3_exec, its code and its text; of
-- sqlite3_prepare_v2, its code and the text of sqlite3_errmsg; and the rows until sqlite3_step gives
-- another code than SQLITE_ROW, that code, and the text of sqlite3_errmsg.
pub record Answer : Type 0 where
  pub exec_rc : ℕ
  pub exec_message : Option Bytes
  pub prepare_rc : ℕ
  pub prepare_message : Bytes
  pub rows : List QueryResultRow
  pub last_rc : ℕ
  pub last_message : Bytes

abbrev pub sqlite_ok : ℕ
sqlite_ok = 0

abbrev pub sqlite_misuse : ℕ
sqlite_misuse = 21

abbrev pub sqlite_done : ℕ
sqlite_done = 101

text_or : Bytes → Option Bytes → Bytes
text_or fallback none = fallback
text_or fallback (some text) = text

exec_result : Answer → QueryResult
unfolding text_or
exec_result a =
    if a.exec_rc == sqlite_ok
    then record { ok = true; code = sqlite_ok; message = []; rows = [] }
    else record {
      ok = false;
      code = a.exec_rc;
      message = text_or (codes "sqlite exec failed") a.exec_message;
      rows = [];
    }

query_result : Answer → QueryResult
query_result a =
    if a.prepare_rc == sqlite_ok
    then (if a.last_rc == sqlite_done
        then record { ok = true; code = sqlite_ok; message = []; rows = a.rows }
        else record { ok = false; code = a.last_rc; message = a.last_message; rows = a.rows })
    else record { ok = false; code = a.prepare_rc; message = a.prepare_message; rows = [] }

pub result_of : JobType → Answer → QueryResult
unfolding exec_result query_result
result_of exec a = exec_result a
result_of query a = query_result a

pub invalid_db : QueryResult
invalid_db = record { ok = false; code = sqlite_misuse; message = codes "invalid db"; rows = [] }

-- The values that the completion passes on success and on failure.
success : JobType → QueryResult → Settled
success exec r = undefined
success query r = rows r.rows

fallback : JobType → Bytes
fallback exec = codes "sqlite exec failed"
fallback query = codes "sqlite query failed"

-- The text handed to JS_ThrowInternalError, of the format `%s (code %d)`; the engine may keep a part of it.
abbrev pub error_text : (message : Bytes) (code : ℕ) → Bytes
unfolding to_string
error_text message code = c_string message ++ (codes " (code " ++ (to_string code ++ codes ")"))

-- The closure of one completion.
pub deliver : Completion → List Effect
unfolding success fallback
deliver c =
    (if c.result.ok
      then call c.job.resolve (success c.job.type c.result)
      else call c.job.reject (
          error (
            error_text (if is_empty c.result.message then fallback c.job.type else c.result.message)
              c.result.code)))
    ∷ free_value c.job.resolve
    ∷ free_value c.job.reject
    ∷ []

pub deliver_all : List Completion → List Effect
unfolding deliver
deliver_all [] = []
deliver_all (c ∷ completions) = deliver c ++ deliver_all completions

-- The worker waits, has taken a job, or has found the database of its job.
pub data Phase : Type 0 where
  waiting : Phase
  holding : Job → Phase
  running : Job → (db : ℕ) → Phase

pub record State : Type 0 where
  pub handles : Handles
  pub jobs : List Job
  pub worker : Phase
  pub completions : List Completion
  pub log : List Effect

-- js_exec and js_query: the `id` property is cut to 32 bits.
pub record Request : Type 0 where
  pub type : JobType
  pub id64 : ℕ
  pub sql : Bytes
  pub resolve : ℕ
  pub reject : ℕ

pub job_of : Request → Job
job_of r = record {
  type = r.type;
  id = r.id64 % 2 ^ 32;
  sql = r.sql;
  resolve = r.resolve;
  reject = r.reject;
}

unfoldable pub submit : State → Request → State
unfolding job_of
submit s r = record s { jobs = s.jobs ++ job_of r ∷ [] }

unfoldable pub take_job : State → List Job → State
take_job s [] = s
take_job s (j ∷ jobs) = record s { jobs = jobs; worker = holding j }

unfoldable pub post : State → Job → QueryResult → State
post s j r = record s {
  worker = waiting;
  completions = s.completions ++ record { job = j; result = r } ∷ [];
}

unfoldable pub look_up : State → Job → State
unfolding post invalid_db
look_up s j = elim (find j.id s.handles.databases) [
  | none ↦ post s j invalid_db
  | some db ↦ record s { worker = running j db }
]

unfoldable pub update : State → State
update s = record s { completions = []; log = s.log ++ deliver_all s.completions }

pub data Event : Type 0 where
  submits : Request → Event
  calls : Call → Event
  takes looks_up updates : Event
  runs : Answer → Event

-- A step that the worker is not ready for is none that it takes.
unfoldable pub step_at : Phase → State → Event → State
unfolding submit take_job look_up post update
step_at phase s (submits r) = submit s r
step_at phase s (calls c) = record s { handles = run_call s.handles c }
step_at phase s updates = update s
step_at waiting s takes = take_job s s.jobs
step_at (holding j) s looks_up = look_up s j
step_at (running j db) s (runs a) = post s j (result_of j.type a)
step_at phase s event = s

unfoldable pub steps : State → List Event → State
unfolding step_at
steps s [] = s
steps s (e ∷ events) = steps (step_at s.worker s e) events

pub free_jobs : List Job → List Effect
free_jobs [] = []
free_jobs (j ∷ jobs) = free_value j.resolve ∷ free_value j.reject ∷ free_jobs jobs

pub free_completions : List Completion → List Effect
free_completions [] = []
free_completions (c ∷ completions) =
    free_value c.job.resolve ∷ free_value c.job.reject ∷ free_completions completions

-- scriptShutdown, after the worker was joined.
pub shutdown : State → State
unfolding free_jobs free_completions
shutdown s = record {
  handles = close_databases s.handles;
  jobs = [];
  worker = waiting;
  completions = [];
  log = s.log ++ (free_jobs s.jobs ++ free_completions s.completions);
}

abbrev pub initial : State
initial = record { handles = no_handles; jobs = []; worker = waiting; completions = []; log = [] }
