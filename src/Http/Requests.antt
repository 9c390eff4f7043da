-- ===== src/Http/Requests.antt =====
-- http/src/module.cpp and the queues of http/src/Http.hpp: the promises of requests, from the call of a
-- script over the worker and drain to the settlement on the script thread.
pub mod Promises
pub mod Ledger
pub mod Outcome
pub mod Run
use koya_plugins.Base.{
  ℕ, ◌+◌, ◌%◌, ◌^◌, Bool, true, false, not, ◌&&◌, Option, none, some, List, [], ◌∷◌, ◌++◌, Bytes,
  codes, to_string, Properties, set_property, Table, find, erase, emplace, replace, is_empty,
  c_string, if◌then◌else◌,
}
use koya_plugins.Http.Types.{Method, MultipartPart, Headers, Job}
use koya_plugins.Http.Worker.{Library, perform, Answer}
use koya_plugins.Http.Values.{
  BodyValue, MultipartValue, jsvalue_to_body, jsvalue_to_multipart, method_from_string,
}

pub record RequestPromiseContext : Type 0 where
  pub resolve : ℕ
  pub reject : ℕ
  pub released : Bool

-- What a promise is settled with. The body is a text up to its first NUL byte or a buffer, which is
-- null if it is empty.
pub data Body : Type 0 where
  text buffer : Bytes → Body
  no_body : Body

pub data Result : Type 0 where
  response : (status : ℕ) (headers : (decode : Bytes → Bytes) → Properties) (body : Body) → Result
  error : (message : Bytes) → Result

pub data Effect : Type 0 where
  made : (id : ℕ) → Effect
  called : (id function : ℕ) → Result → Effect
  freed_resolve freed_reject : (id function : ℕ) → Effect

pub data Phase : Type 0 where
  idle terminated : Phase
  working : Job → Phase

-- `promises` holds the contexts that the table of pending promises, the callbacks of jobs and the
-- completions share. `tasks` are the completions that the host has taken on.
pub record HttpContext : Type 0 where
  pub active : Bool
  pub next_request_id : ℕ
  pub pending : Table ℕ
  pub promises : Table RequestPromiseContext
  pub multipart_sequence : ℕ
  pub waiting : List Job
  pub worker : Phase
  pub done : List Job
  pub tasks : List Job
  pub log : List Effect

-- The object that request is given, read from the script. A header is added by insertion.
pub record RequestOptions : Type 0 where
  pub url : Bytes
  pub method : Bytes
  pub headers : Headers
  pub body : BodyValue
  pub multipart : MultipartValue
  pub binary : Bool
  pub resolve : ℕ
  pub reject : ℕ

abbrev boundary_of : ℕ → Bytes
boundary_of sequence = codes "----SyncromeshBoundary" ++ to_string sequence

abbrev add_content_type : Headers → Bytes → Headers
add_content_type headers boundary =
    headers ++ (codes "Content-Type", codes "multipart/form-data; boundary=" ++ boundary) ∷ []

abbrev pub new_job : HttpContext → RequestOptions → Bytes → Job
new_job s o body = record {
  method = method_from_string o.method;
  url = o.url;
  succeed = false;
  binary = o.binary;
  error_message = [];
  complete = s.next_request_id;
  headers = o.headers;
  body = body;
  multipart_boundary = [];
  multipart = none;
  body_binary = [];
  status = 0;
}

abbrev pub job_of : HttpContext → RequestOptions → Bytes → List MultipartPart → Job
job_of s o body [] = new_job s o body
job_of s o body (p ∷ parts) = record (new_job s o body) {
  headers = add_content_type o.headers (boundary_of s.multipart_sequence);
  multipart_boundary = boundary_of s.multipart_sequence;
  multipart = some (p ∷ parts);
}

abbrev next_sequence : HttpContext → List MultipartPart → ℕ
next_sequence s [] = s.multipart_sequence
next_sequence s (p ∷ parts) = (s.multipart_sequence + 1) % 2 ^ 64

abbrev pub add_request : HttpContext → RequestOptions → Bytes → List MultipartPart → HttpContext
add_request s o body parts = record s {
  next_request_id = (s.next_request_id + 1) % 2 ^ 64;
  pending = emplace s.next_request_id s.next_request_id s.pending;
  promises =
      (s.next_request_id, record { resolve = o.resolve; reject = o.reject; released = false })
      ∷ s.promises;
  multipart_sequence = next_sequence s parts;
  waiting = s.waiting ++ job_of s o body parts ∷ [];
  log = s.log ++ made s.next_request_id ∷ [];
}

-- The cases in which a type error is thrown change nothing.
unfoldable pub js_request : HttpContext → RequestOptions → HttpContext
js_request s o = if is_empty o.url then s else elim (jsvalue_to_body o.body) [
  | none ↦ s
  | some body ↦ elim (jsvalue_to_multipart o.multipart) [
    | none ↦ s
    | some parts ↦ add_request s o body parts
  ]
]

-- The worker takes the front job, if there is one.
unfoldable pub take_job : HttpContext → List Job → HttpContext
take_job s [] = s
take_job s (job ∷ jobs) = record s { waiting = jobs; worker = working job }

abbrev pub post : HttpContext → Option Job → HttpContext
post s none = record s { worker = terminated }
post s (some job) = record s { worker = idle; done = s.done ++ job ∷ [] }

abbrev body_of : Job → Body
body_of job =
    if job.binary
    then (if is_empty job.body_binary then no_body else buffer job.body_binary)
    else text (c_string job.body)

-- The loop over the headers of a response; `decode` is the engine's reading of bytes as a text, which
-- need not keep bytes that are not UTF-8. A header of the same name replaces the value.
unfoldable pub headers_object : (decode : Bytes → Bytes) → Headers → Properties → Properties
unfolding c_string set_property
headers_object decode [] obj = obj
headers_object decode ((name, value) ∷ headers) obj =
    headers_object decode headers
      (set_property (decode (c_string name)) (decode (c_string value)) obj)

abbrev pub result_of : Job → Result
result_of job =
    if job.succeed
    then response job.status (λ decode. headers_object decode job.headers []) (body_of job)
    else error (
        if is_empty job.error_message
        then codes "HTTP request failed"
        else c_string job.error_message)

abbrev pub release_effects : ℕ → RequestPromiseContext → List Effect
release_effects id p =
    if p.released then [] else freed_resolve id p.resolve ∷ freed_reject id p.reject ∷ []

unfoldable pub release_promise : HttpContext → ℕ → RequestPromiseContext → HttpContext
release_promise s id p = record s {
  promises = replace id (record p { released = true }) s.promises;
  log = s.log ++ release_effects id p;
}

abbrev pub call_effect : Job → RequestPromiseContext → Effect
call_effect job p =
    called job.complete (if job.succeed then p.resolve else p.reject) (result_of job)

-- After the shutdown, whether the context is gone or only inactive, nothing is done.
unfoldable pub settle_request : HttpContext → Job → HttpContext
unfolding release_promise
settle_request s job = elim (find job.complete s.promises) [
  | none ↦ s
  | some p ↦
      if s.active && not p.released
      then release_promise
          (record s {
            pending = erase job.complete s.pending;
            log = s.log ++ call_effect job p ∷ [];
          })
          job.complete p
      else s
]

-- What the host makes of a task: it refuses it, keeps it for later, or runs it at once.
pub data Dispatch : Type 0 where
  refuses keeps runs_inline : Dispatch

abbrev pub dispatch : HttpContext → Job → Dispatch → HttpContext
dispatch s job refuses = s
dispatch s job keeps = record s { tasks = s.tasks ++ job ∷ [] }
dispatch s job runs_inline = settle_request s job

unfoldable pub request_callback : HttpContext → Job → Dispatch → HttpContext
unfolding settle_request
request_callback s job d = elim (find job.complete s.promises) [
  | none ↦ s
  | some p ↦ if s.active && not p.released then dispatch s job d else s
]

unfoldable pub drain_jobs : (Job → Dispatch) → HttpContext → List Job → HttpContext
unfolding request_callback
drain_jobs host s [] = s
drain_jobs host s (job ∷ jobs) = drain_jobs host (request_callback s job (host job)) jobs

-- Http::drain, called by js_drain and by the update.
unfoldable pub drain : (Job → Dispatch) → HttpContext → HttpContext
unfolding drain_jobs
drain host s = drain_jobs host (record s { done = [] }) s.done

unfoldable pub run_task : HttpContext → List Job → HttpContext
unfolding settle_request
run_task s [] = s
run_task s (job ∷ jobs) = settle_request (record s { tasks = jobs }) job

unfoldable pub release_all : HttpContext → Table ℕ → HttpContext
unfolding release_promise
release_all s [] = s
release_all s ((id, entry) ∷ pending) = elim (find id s.promises) [
  | none ↦ release_all s pending
  | some p ↦ release_all (release_promise s id p) pending
]

unfoldable pub cleanup_http_context : HttpContext → HttpContext
unfolding release_all
cleanup_http_context s = release_all (record s { active = false; pending = [] }) s.pending

pub data Event : Type 0 where
  requests : RequestOptions → Event
  takes performs runs_task : Event
  drains : (Job → Dispatch) → Event

module _ (lib : Library) where
  -- An event that cannot happen in the worker's phase is skipped, and all are once the process ended.
  unfoldable pub step_at : Phase → HttpContext → Event → HttpContext
  unfolding js_request take_job drain run_task
  step_at terminated s e = s
  step_at phase s (requests o) = js_request s o
  step_at idle s takes = take_job s s.waiting
  step_at (working job) s performs = post s (perform lib job)
  step_at phase s (drains host) = drain host s
  step_at phase s runs_task = run_task s s.tasks
  step_at phase s e = s

  unfoldable pub steps : HttpContext → List Event → HttpContext
  unfolding step_at
  steps s [] = s
  steps s (e ∷ events) = steps (step_at s.worker s e) events

abbrev pub initial : HttpContext
initial = record {
  active = true;
  next_request_id = 1;
  pending = [];
  promises = [];
  multipart_sequence = 1;
  waiting = [];
  worker = idle;
  done = [];
  tasks = [];
  log = [];
}
