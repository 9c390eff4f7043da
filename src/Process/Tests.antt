-- ===== src/Process/Tests.antt =====
-- Runs of the theorems on the process plugin at concrete inputs.
use koya_plugins.Base.{
  bytes_eq, Properties, get_property, ℕ, ◌+◌, ◌*◌, ◌≤◌, ◌≡◌, refl, true, none, some, List, [], ◌∷◌,
  Bytes, codes, erase, find, ◌++◌, All, arith, contains, ◌==◌, if◌then◌else◌, tally, entries,
}
use koya_plugins.Process.Types.{Effect, ProcessState, initial}
use koya_plugins.Process.Launch.{launch, js_exec, Launch, SpawnOptions}
use koya_plugins.Process.Control.{of_exit}
use koya_plugins.Process.Output.{outs, errs, gathered_by, chunk_out}
use koya_plugins.Process.Output.Answers.{Answered}
use koya_plugins.Process.Output.Truthful.{exec_output}
use koya_plugins.Process.Update.{
  update, poll_all, duplicate_all, release_requests, emit_all, raise_all, emit_events, finish_all,
  bury_all, Poll, exits,
}
use koya_plugins.Process.Shutdown.{Answers, shutdown}
use koya_plugins.Process.Shutdown.Release.{shutdown_releases_children}
use koya_plugins.Process.System.{Event, spawns, execs, subscribes, updates, kills_with, step, steps}
use koya_plugins.Process.System.Accounting.{
  started, reaped, exits_told, promised, settled, opened_fd, closed_fd,
}
use koya_plugins.Process.System.Rounds.{fds}
use koya_plugins.Process.System.Safety.{children_reaped_once, exec_settled_once}
use koya_plugins.Process.System.Balance.{leaks}
use koya_plugins.Process.System.Descriptors.{descriptors_balanced}
use koya_plugins.Process.Environment.{js_env, js_get_env}
use koya_plugins.Process.Environment.Lookup.{
  answer, decoded, first_of, last_of, env_lookup, get_env_agrees,
}

abbrev works : ℕ → Launch
works pid = record {
  in_pipe = some (10, 11);
  out_pipe = some (12, 13);
  err_pipe = some (14, 15);
  pid = some pid;
}

-- The third pipe cannot be made.
abbrev no_third : Launch
no_third = record { in_pipe = some (20, 21); out_pipe = some (22, 23); err_pipe = none; pid = none }

abbrev sleep_options : SpawnOptions
sleep_options = record { cmd = some (codes "sleep"); args = codes "9" ∷ [] }

-- The second child, of exec, ends; the first, of spawn, runs on.
abbrev polls : ℕ → Poll
polls id =
    if id == 2
    then record { out = codes "ab" ∷ []; err = []; status = some (exits 3) }
    else record { out = []; err = []; status = none }

abbrev two_children : List Event
two_children =
    spawns (some sleep_options) (works 100)
    ∷ execs (some (codes "true")) (works 101) 70 71
    ∷ spawns (some sleep_options) no_third
    ∷ subscribes of_exit 2 (codes "exit") 90
    ∷ updates polls
    ∷ kills_with 1 15
    ∷ []

children_reaped_once_example :
    let s = steps initial two_children in
    (tally (started 2) s.log ≤ 1)
    × (tally (reaped 2) s.log + entries 2 s.processes ≡ tally (started 2) s.log)
    × (tally (exits_told 2) s.log ≡ tally (reaped 2) s.log)
children_reaped_once_example = children_reaped_once two_children 2 (omega arith)

exec_settled_once_example :
    let s = steps initial two_children in
    (tally (promised 2) s.log ≤ 1)
    × (tally (settled 2) s.log + entries 2 s.exec_requests ≡ tally (promised 2) s.log)
    × (entries 2 s.exec_requests ≤ entries 2 s.processes)
    × (tally (reaped 2) s.log ≡ 1 → tally (settled 2) s.log ≡ tally (promised 2) s.log)
exec_settled_once_example = exec_settled_once two_children 2 (omega arith)

descriptors_balanced_example :
    let s = steps initial two_children in
    tally (opened_fd 22) s.log
    ≡ tally (closed_fd 22) s.log + tally (fds 22) s.processes + tally (leaks 22) two_children
descriptors_balanced_example = descriptors_balanced two_children 22 (omega arith)

-- A child that never ends by itself.
abbrev stubborn : Answers
stubborn = record { running = λ k. true; clock = λ k. 10 * k; runs_on = true }

shutdown_releases_children_example :
    (s : ProcessState) × (shutdown (λ id. stubborn) (steps initial two_children) ≡ some s)
    × (tally (reaped 1) s.log ≡ tally (started 1) s.log)
    × (tally (settled 1) s.log ≤ 1)
    × (tally (opened_fd 11) s.log ≡ tally (closed_fd 11) s.log + tally (leaks 11) two_children)
shutdown_releases_children_example =
    shutdown_releases_children two_children (λ id. stubborn) 1 11 (omega arith)
      (λ id k. omega arith)

abbrev some_variables : List Bytes
some_variables = codes "HOME=/root" ∷ codes "odd" ∷ codes "=x" ∷ codes "OPT=a=b" ∷ []

env_lookup_example :
    (obj : Properties) × (js_env (λ b. b) 0 some_variables ≡ some obj)
    × (get_property (codes "OPT") obj ≡ decoded (λ b. b) (last_of (codes "OPT") some_variables))
unfolding contains bytes_eq
env_lookup_example =
    env_lookup (λ b. b) (codes "OPT") some_variables (refl, refl) (refl, λ key e. e)

last_of-opt : last_of (codes "OPT") some_variables ≡ some (codes "a=b")
unfolding last_of
last_of-opt = refl

one_entry : first_of (codes "OPT") some_variables ≡ last_of (codes "OPT") some_variables
unfolding first_of last_of
one_entry = refl

get_env_agrees_example :
    (obj : Properties) × (js_env (λ b. b) 0 some_variables ≡ some obj)
    × (js_get_env (λ b. b) (λ n. first_of n some_variables) (some (codes "OPT")) true
        ≡ answer true (get_property (codes "OPT") obj))
unfolding contains bytes_eq
get_env_agrees_example =
    get_env_agrees (λ b. b) (λ n. first_of n some_variables) (codes "OPT") some_variables true
      (refl, refl) (refl, λ key e. e) refl refl one_entry

-- The child of exec writes twice before it ends.
abbrev first_block : ℕ → Poll
first_block id = record { out = codes "ab" ∷ []; err = codes "e" ∷ []; status = none }

abbrev last_block : ℕ → Poll
last_block id = record { out = codes "c" ∷ codes "d" ∷ []; err = []; status = some (exits 3) }

abbrev one_child : List Event
one_child = execs (some (codes "true")) (works 101) 70 71 ∷ updates first_block ∷ []

exec_output_example :
    let s = steps initial one_child in
    let s' = update last_block s in
    (es : List Effect) × (s'.log ≡ s.log ++ es)
    × All (Answered (λ a. outs a s'.log) (λ a. errs a s'.log)) es
exec_output_example = exec_output one_child last_block (omega arith)

all_read : outs 1 (update last_block (steps initial one_child)).log ≡ codes "abcd"
unfolding gathered_by chunk_out steps step js_exec update contains launch poll_all erase
    duplicate_all release_requests emit_all raise_all emit_events find finish_all bury_all
all_read = refl
