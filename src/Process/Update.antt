-- ===== src/Process/Update.antt =====
-- process_poll_io and process_update_callback of process/src/module.cpp. A listener that is called
-- does not call the plugin back here.
use koya_plugins.Base.{
  ℕ, ◌+◌, Bool, true, not, ◌&&◌, Option, none, some, List, [], ◌∷◌, ◌++◌, map, Bytes, is_empty,
  Table, find, erase, replace, ◌==◌, if◌then◌else◌,
}
use koya_plugins.Process.Types.{
  ChildProcess, ListenerLists, ExecRequest, Emit, stdout, stderr, exit, Outcome, output, failure,
  Effect, reads_stdout, reads_stderr, reaps, emits, calls, settles, duplicates, free_value,
  ProcessState,
}
use koya_plugins.Process.Control.{close_fd}

pub data Status : Type 0 where
  exits : (code : ℕ) → Status
  is_signalled : (signal : ℕ) → Status

-- What the kernel gives for one process: the blocks that read returns until it has no more, and the
-- status, if waitpid returns it.
pub record Poll : Type 0 where
  pub out : List Bytes
  pub err : List Bytes
  pub status : Option Status

unfoldable pub concat : List Bytes → Bytes
concat [] = []
concat (b ∷ blocks) = b ++ concat blocks

unfoldable pub process_poll_io : ChildProcess → Poll → ChildProcess
unfolding concat
process_poll_io p poll = record p {
  stdout_buf = p.stdout_buf ++ concat poll.out;
  stderr_buf = p.stderr_buf ++ concat poll.err;
}

unfoldable pub io_effects : ℕ → Poll → List Effect
io_effects id poll = map (reads_stdout id) poll.out ++ map (reads_stderr id) poll.err

-- The output is added to the request of the process, if there is one.
unfoldable pub gather : ℕ → ChildProcess → Table ExecRequest → Table ExecRequest
unfolding replace
gather id p requests = elim (find id requests) [
  | none ↦ requests
  | some r ↦
      replace id (record r { out = r.out ++ p.stdout_buf; err = r.err ++ p.stderr_buf }) requests
]

unfoldable pub data_events : ℕ → ChildProcess → List Emit
data_events id p =
    (if is_empty p.stdout_buf then [] else stdout id p.stdout_buf ∷ [])
    ++ (if is_empty p.stderr_buf then [] else stderr id p.stderr_buf ∷ [])

pub code_of : Status → ℕ
code_of (exits code) = code
code_of (is_signalled signal) = 128 + signal

unfoldable pub wait_for : ChildProcess → Option Status → ChildProcess
unfolding code_of
wait_for p none = p
wait_for p (some st) = record p { exited = true; exit_code = some (code_of st) }

unfoldable pub wait_effects : ℕ → Option Status → List Effect
wait_effects id none = []
wait_effects id (some st) = reaps id ∷ []

unfoldable pub exit_value : Option ℕ → ℕ
exit_value none = 0
exit_value (some code) = code

-- `ExecFinalize`; the functions are duplicated for it.
pub record Final : Type 0 where
  pub id : ℕ
  pub ok : Bool
  pub code : ℕ
  pub out : Bytes
  pub err : Bytes
  pub resolve : ℕ
  pub reject : ℕ

unfoldable pub final_of : ℕ → ℕ → Option ExecRequest → List Final
final_of id code none = []
final_of id code (some r) =
    record {
      id = id;
      ok = code == 0;
      code = code;
      out = r.out;
      err = r.err;
      resolve = r.resolve;
      reject = r.reject;
    }
    ∷ []

-- What the first loop makes of the processes that it has seen.
pub record Round : Type 0 where
  pub processes : Table ChildProcess
  pub requests : Table ExecRequest
  pub effects : List Effect
  pub events : List Emit
  pub finals : List Final
  pub dead : List ℕ

-- The body of the first loop after the reading, for a process with its output in the buffers.
unfoldable pub settle_child : ℕ → Option Status → ChildProcess → ChildProcess × List Emit
unfolding data_events wait_for exit_value
settle_child id status p =
    let waited = wait_for (record p { stdout_buf = []; stderr_buf = [] }) status in
    let ends = waited.exited && not waited.exit_emitted in
    (
      (if ends then record waited { exit_emitted = true } else waited),
      data_events id p ++ (if ends then exit id (exit_value waited.exit_code) ∷ [] else []),
    )

unfoldable pub poll_one : ℕ → Poll → ChildProcess → Table ExecRequest → Round
unfolding process_poll_io io_effects gather wait_effects settle_child final_of exit_value
poll_one id poll p requests =
    let full = process_poll_io p poll in
    let gathered = gather id full requests in
    let done = settle_child id poll.status full in
    record {
      processes = (id, done.0) ∷ [];
      requests = gathered;
      effects = io_effects id poll ++ wait_effects id poll.status;
      events = done.1;
      finals =
          if done.0.exited
          then final_of id (exit_value done.0.exit_code) (find id gathered)
          else [];
      dead = if done.0.exited then id ∷ [] else [];
    }

unfoldable pub poll_all : (ℕ → Poll) → Table ChildProcess → Table ExecRequest → Round
unfolding poll_one
poll_all polls [] requests = record {
  processes = [];
  requests = requests;
  effects = [];
  events = [];
  finals = [];
  dead = [];
}
poll_all polls ((id, p) ∷ processes) requests =
    let one = poll_one id (polls id) p requests in
    let rest = poll_all polls processes one.requests in
    record {
      processes = one.processes ++ rest.processes;
      requests = rest.requests;
      effects = one.effects ++ rest.effects;
      events = one.events ++ rest.events;
      finals = one.finals ++ rest.finals;
      dead = one.dead ++ rest.dead;
    }

-- The loop that takes the finished requests out.
unfoldable pub release_requests : List Final → Table ExecRequest → Table ExecRequest × List Effect
release_requests [] requests = (requests, [])
release_requests (f ∷ finals) requests = elim (find f.id requests) [
  | none ↦ release_requests finals requests
  | some r ↦
      let rest = release_requests finals (erase f.id requests) in
      (rest.0, free_value r.resolve ∷ free_value r.reject ∷ rest.1)
]

pub listeners_for : Emit → Table ListenerLists → List ℕ
listeners_for (stdout id text) t = elim (find id t) [ none ↦ [] | some l ↦ l.stdout_data ]
listeners_for (stderr id text) t = elim (find id t) [ none ↦ [] | some l ↦ l.stderr_data ]
listeners_for (exit id code) t = elim (find id t) [ none ↦ [] | some l ↦ l.exit_listeners ]

unfoldable pub call_all : Emit → List ℕ → List Effect
call_all e [] = []
call_all e (f ∷ fs) = calls f e ∷ call_all e fs

-- The loop over the events; one without an entry in the table of listeners is passed over.
unfoldable pub emit_all : Table ListenerLists → List Emit → List Effect
unfolding listeners_for call_all
emit_all t [] = []
emit_all t (e ∷ events) = call_all e (listeners_for e t) ++ emit_all t events

-- The events that the round pushed to `emits`, and the calls that the loop makes for them.
unfoldable pub raise_all : List Emit → List Effect
raise_all [] = []
raise_all (e ∷ events) = emits e ∷ raise_all events

unfoldable pub emit_events : Table ListenerLists → List Emit → List Effect
unfolding raise_all emit_all
emit_events t events = raise_all events ++ emit_all t events

unfoldable pub outcome : Final → Outcome
outcome f = if f.ok then output f.out f.err else failure f.code f.out f.err

-- The loop over the promises.
unfoldable pub finish_all : List Final → List Effect
unfolding outcome
finish_all [] = []
finish_all (f ∷ finals) =
    settles f.id (if f.ok then f.resolve else f.reject) (outcome f)
    ∷ free_value f.resolve
    ∷ free_value f.reject
    ∷ finish_all finals

unfoldable pub duplicate_all : List Final → List Effect
duplicate_all [] = []
duplicate_all (f ∷ finals) = duplicates f.resolve ∷ duplicates f.reject ∷ duplicate_all finals

unfoldable pub close_all_fds : ChildProcess → List Effect
close_all_fds p = close_fd p.stdin_fd ++ (close_fd p.stdout_fd ++ close_fd p.stderr_fd)

unfoldable pub free_all : List ℕ → List Effect
free_all [] = []
free_all (f ∷ fs) = free_value f ∷ free_all fs

unfoldable pub free_lists : ListenerLists → List Effect
unfolding free_all
free_lists l = free_all l.stdout_data ++ (free_all l.stderr_data ++ free_all l.exit_listeners)

unfoldable pub bury_process : ℕ → Table ChildProcess → Table ChildProcess × List Effect
unfolding close_all_fds
bury_process id processes = elim (find id processes) [
  | none ↦ (processes, [])
  | some p ↦ (erase id processes, close_all_fds p)
]

unfoldable pub bury_listeners : ℕ → Table ListenerLists → Table ListenerLists × List Effect
unfolding free_lists
bury_listeners id listeners = elim (find id listeners) [
  | none ↦ (listeners, [])
  | some l ↦ (erase id listeners, free_lists l)
]

-- The last loop, over the processes that have ended.
unfoldable pub bury_all :
    List ℕ
    → Table ChildProcess
    → Table ListenerLists
    → Table ChildProcess × Table ListenerLists × List Effect
unfolding bury_process bury_listeners
bury_all [] processes listeners = (processes, listeners, [])
bury_all (id ∷ dead) processes listeners =
    let p = bury_process id processes in
    let l = bury_listeners id listeners in
    let rest = bury_all dead p.0 l.0 in (rest.0, rest.1, p.1 ++ (l.1 ++ rest.2))

unfoldable pub update : (ℕ → Poll) → ProcessState → ProcessState
update polls s =
    let round = poll_all polls s.processes s.exec_requests in
    let released = release_requests round.finals round.requests in
    let polled = s.log ++ (round.effects ++ (duplicate_all round.finals ++ released.1)) in
    let buried = bury_all round.dead round.processes s.listeners in
    if s.context
    then record s {
      processes = buried.0;
      listeners = buried.1;
      exec_requests = released.0;
      log =
          polled ++ (emit_events s.listeners round.events ++ (finish_all round.finals ++ buried.2));
    }
    else record s { processes = round.processes; exec_requests = released.0; log = polled }
