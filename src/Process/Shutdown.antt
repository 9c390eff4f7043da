-- ===== src/Process/Shutdown.antt =====
-- The script shutdown of process/src/module.cpp: references are freed, children are stopped, their
-- descriptors closed, and each child is reaped.
pub mod Reaping
pub mod Release
use koya_plugins.Base.{
  ℕ, zero, suc, ◌+◌, Bool, true, false, ◌&&◌, not, Option, none, some, List, [], ◌∷◌, ◌++◌, Table,
  ltb, if◌then◌else◌,
}
use koya_plugins.Process.Types.{
  ChildProcess, ListenerLists, ExecRequest, Effect, kills, reaps, free_value, ProcessState,
}
use koya_plugins.Process.Update.{close_all_fds, free_lists}

-- What the kernel and the clock answer while one child is waited for: whether waitpid says in round
-- `k` that it still runs, the milliseconds since the loop began when the clock is read in round `k`,
-- and whether the child still runs at the test after the loop, if it had not ended in the loop.
pub record Answers : Type 0 where
  pub running : ℕ → Bool
  pub clock : ℕ → ℕ
  pub runs_on : Bool

abbrev pub patience : ℕ
patience = 500

-- The waiting loop: whether the child ended in it, or `none` if the fuel ran out.
pub wait_loop : ℕ → Answers → ℕ → Option Bool
wait_loop zero r k = none
wait_loop (suc fuel) r k =
    let more = wait_loop fuel r (k + 1) in
    if r.running k then (if ltb (r.clock k) patience then more else some false) else some true

-- What follows the loop: a child that runs on is killed and waited for. waitpid says no more of a
-- child that it has reaped.
pub end_child : ℕ → ℕ → Answers → Bool → List Effect
end_child id pid r true = reaps id ∷ []
end_child id pid r false = if r.runs_on then kills pid 9 ∷ reaps id ∷ [] else reaps id ∷ []

-- A round takes ten milliseconds or more, so that the deadline passes within this many rounds.
abbrev pub rounds : ℕ
rounds = 51

pub reap_all : (ℕ → Answers) → Table ChildProcess → Option (List Effect)
unfolding wait_loop end_child
reap_all answers [] = some []
reap_all answers ((id, p) ∷ processes) =
    let rest = reap_all answers processes in
    elim (wait_loop rounds (answers id) 0) [
      | none ↦ none
      | some done ↦ elim rest [
        | none ↦ none
        | some es ↦ some (end_child id p.pid (answers id) done ++ es)
      ]
    ]

pub free_requests : Table ExecRequest → List Effect
free_requests [] = []
free_requests ((id, r) ∷ requests) =
    free_value r.resolve ∷ free_value r.reject ∷ free_requests requests

pub free_listeners : Table ListenerLists → List Effect
free_listeners [] = []
free_listeners ((id, l) ∷ listeners) = free_lists l ++ free_listeners listeners

pub terminate_all : Table ChildProcess → List Effect
terminate_all [] = []
terminate_all ((id, p) ∷ processes) = kills p.pid 15 ∷ terminate_all processes

pub close_processes : Table ChildProcess → List Effect
close_processes [] = []
close_processes ((id, p) ∷ processes) = close_all_fds p ++ close_processes processes

pub shutdown_effects : ProcessState → List Effect
unfolding free_requests free_listeners terminate_all close_processes
shutdown_effects s =
    free_requests s.exec_requests
    ++ (free_listeners s.listeners ++ (terminate_all s.processes ++ close_processes s.processes))

unfoldable pub shutdown : (ℕ → Answers) → ProcessState → Option ProcessState
unfolding shutdown_effects reap_all
shutdown answers s = elim (reap_all answers s.processes) [
  | none ↦ none
  | some es ↦ some (record s {
    processes = [];
    context = false;
    listeners = [];
    exec_requests = [];
    log = s.log ++ (shutdown_effects s ++ es);
  })
]
