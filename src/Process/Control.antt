-- ===== src/Process/Control.antt =====
-- The methods of the objects that js_spawn returns, in process/src/module.cpp, called with arguments
-- of the kinds that they ask for. The number that a
-- method reads from its object is cut to 32 bits.
use koya_plugins.Base.{
  ℕ, ◌%◌, ◌^◌, Option, none, some, List, [], ◌∷◌, ◌++◌, Bytes, codes, bytes_eq, Table, find, assign,
  replace, ◌==◌, if◌then◌else◌,
}
use koya_plugins.Process.Types.{
  ChildProcess, ListenerLists, Effect, closes, writes, kills, duplicates, free_value, ProcessState,
  Reply, undefined, throws_type_error,
}

-- stdout.on, stderr.on and on of the process itself, and the same for off.
pub data Channel : Type 0 where
  of_stdout of_stderr of_exit : Channel

pub event_of : Channel → Bytes
event_of of_stdout = codes "data"
event_of of_stderr = codes "data"
event_of of_exit = codes "exit"

pub listeners_on : Channel → ListenerLists → List ℕ
listeners_on of_stdout l = l.stdout_data
listeners_on of_stderr l = l.stderr_data
listeners_on of_exit l = l.exit_listeners

with_listeners : Channel → List ℕ → ListenerLists → ListenerLists
with_listeners of_stdout fs l = record l { stdout_data = fs }
with_listeners of_stderr fs l = record l { stderr_data = fs }
with_listeners of_exit fs l = record l { exit_listeners = fs }

abbrev pub no_listeners : ListenerLists
no_listeners = record { stdout_data = []; stderr_data = []; exit_listeners = [] }

-- g_listeners[id], which makes the entry
pub listeners_of : ℕ → Table ListenerLists → ListenerLists
listeners_of id t = elim (find id t) [ none ↦ no_listeners | some l ↦ l ]

unfoldable pub js_on : ProcessState → Channel → (id64 : ℕ) → Bytes → (function : ℕ) → ProcessState
unfolding event_of listeners_on with_listeners listeners_of assign
js_on s ch id64 event f =
    let id = id64 % 2 ^ 32 in
    let lists = listeners_of id s.listeners in
    if bytes_eq event (event_of ch)
    then record s {
      listeners = assign id (with_listeners ch (listeners_on ch lists ++ f ∷ []) lists) s.listeners;
      log = s.log ++ duplicates f ∷ [];
    }
    else s

-- The loop that erases each occurrence, and what it frees.
unfoldable pub without : ℕ → List ℕ → List ℕ × List Effect
without f [] = ([], [])
without f (g ∷ fs) =
    let rest = without f fs in
    if g == f then (rest.0, free_value g ∷ rest.1) else (g ∷ rest.0, rest.1)

unfoldable pub js_off : ProcessState → Channel → (id64 : ℕ) → Bytes → (function : ℕ) → ProcessState
unfolding event_of listeners_on with_listeners listeners_of assign without
js_off s ch id64 event f =
    let id = id64 % 2 ^ 32 in
    let lists = listeners_of id s.listeners in
    let left = without f (listeners_on ch lists) in
    if bytes_eq event (event_of ch)
    then record s {
      listeners = assign id (with_listeners ch left.0 lists) s.listeners;
      log = s.log ++ left.1;
    }
    else s

unfoldable pub write_to : ChildProcess → Bytes → List Effect
write_to p text = elim p.stdin_fd [ none ↦ [] | some fd ↦ writes fd text ∷ [] ]

unfoldable pub js_write : ProcessState → (id64 : ℕ) → Bytes → ProcessState × Reply
unfolding write_to
js_write s id64 text = elim (find (id64 % 2 ^ 32) s.processes) [
  | none ↦ (s, throws_type_error)
  | some p ↦ (record s { log = s.log ++ write_to p text }, undefined)
]

abbrev pub close_fd : Option ℕ → List Effect
close_fd none = []
close_fd (some fd) = closes fd ∷ []

unfoldable pub js_close_stdin : ProcessState → (id64 : ℕ) → ProcessState × Reply
unfolding replace
js_close_stdin s id64 = elim (find (id64 % 2 ^ 32) s.processes) [
  | none ↦ (s, throws_type_error)
  | some p ↦ (
    record s {
      processes = replace (id64 % 2 ^ 32) (record p { stdin_fd = none }) s.processes;
      log = s.log ++ close_fd p.stdin_fd;
    },
    undefined,
  )
]

-- A child's number is not 0.
unfoldable pub js_kill : ProcessState → (id64 signal : ℕ) → ProcessState × Reply
js_kill s id64 signal = elim (find (id64 % 2 ^ 32) s.processes) [
  | none ↦ (s, throws_type_error)
  | some p ↦ (record s { log = s.log ++ kills p.pid signal ∷ [] }, undefined)
]
