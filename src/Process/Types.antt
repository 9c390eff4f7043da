-- ===== src/Process/Types.antt =====
-- The data of process/src/module.cpp.
use koya_plugins.Base.{ℕ, Bool, Option, List, [], Bytes, Table}

-- A descriptor that is -1 is `none`; so is the exit code -1 that stands before the exit.
pub record ChildProcess : Type 0 where
  pub pid : ℕ
  pub stdin_fd : Option ℕ
  pub stdout_fd : Option ℕ
  pub stderr_fd : Option ℕ
  pub stdout_buf : Bytes
  pub stderr_buf : Bytes
  pub exit_code : Option ℕ
  pub exited : Bool
  pub exit_emitted : Bool

pub record ListenerLists : Type 0 where
  pub stdout_data : List ℕ
  pub stderr_data : List ℕ
  pub exit_listeners : List ℕ

pub record ExecRequest : Type 0 where
  pub id : ℕ
  pub out : Bytes
  pub err : Bytes
  pub resolve : ℕ
  pub reject : ℕ

-- An event for the listeners of the process `id`.
pub data Emit : Type 0 where
  stdout stderr : (id : ℕ) → Bytes → Emit
  exit : (id : ℕ) → (code : ℕ) → Emit

-- What a promise of js_exec is settled with.
pub data Outcome : Type 0 where
  output : (out err : Bytes) → Outcome
  failure : (code : ℕ) → (out err : Bytes) → Outcome

-- What the plugin does to the kernel and the script engine, in order.
pub data Effect : Type 0 where
  opens closes : (fd : ℕ) → Effect
  -- fork, for the process `id`, whose child runs the first word with all of them
  forks : (id pid : ℕ) → List Bytes → Effect
  writes : (fd : ℕ) → Bytes → Effect
  kills : (pid signal : ℕ) → Effect
  -- read of one block of the process `id`
  reads_stdout reads_stderr : (id : ℕ) → Bytes → Effect
  -- waitpid gave the status of the process `id`
  reaps : (id : ℕ) → Effect
  -- a round of reading pushed an event to `emits`; recorded before the first listener is called
  emits : Emit → Effect
  -- JS_Call of a listener
  calls : (function : ℕ) → Emit → Effect
  -- JS_NewPromiseCapability, and JS_Call of one of its functions, for the process `id`
  new_promise : (id resolve reject : ℕ) → Effect
  settles : (id function : ℕ) → Outcome → Effect
  duplicates free_value : (function : ℕ) → Effect

-- `ProcessState`; the mutex is never waited for, since one thread uses the state. `context` says that
-- the context pointer is not null.
pub record ProcessState : Type 0 where
  pub processes : Table ChildProcess
  pub next_id : ℕ
  pub context : Bool
  pub listeners : Table ListenerLists
  pub exec_requests : Table ExecRequest
  pub log : List Effect

abbrev pub initial : ProcessState
initial = record {
  processes = [];
  next_id = 1;
  context = Bool.true;
  listeners = [];
  exec_requests = [];
  log = [];
}

pub data Reply : Type 0 where
  undefined throws_type_error : Reply
  process promise : (id : ℕ) → Reply
