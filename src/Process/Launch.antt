-- ===== src/Process/Launch.antt =====
-- js_spawn and js_exec of process/src/module.cpp, in the parent. Of the child only the words that it
-- runs are kept; it closes its own copies of the descriptors.
use koya_plugins.Base.{
  ℕ, ◌+◌, ◌%◌, ◌^◌, false, Option, none, some, List, [], ◌∷◌, ◌++◌, map, Bytes, codes, c_string,
  assign,
}
use koya_plugins.Process.Types.{
  ChildProcess, Effect, opens, closes, forks, new_promise, ProcessState, Reply, throws_type_error,
  process, promise,
}

-- The answers of the three calls of pipe, each the reading and the writing end, and of fork.
pub record Launch : Type 0 where
  pub in_pipe : Option (ℕ × ℕ)
  pub out_pipe : Option (ℕ × ℕ)
  pub err_pipe : Option (ℕ × ℕ)
  pub pid : Option ℕ

abbrev pub opened : ℕ × ℕ → List Effect
opened ends = opens ends.0 ∷ opens ends.1 ∷ []

unfoldable pub new_child : ℕ → ℕ → ℕ → ℕ → ChildProcess
new_child pid fd_in fd_out fd_err = record {
  pid = pid;
  stdin_fd = some fd_in;
  stdout_fd = some fd_out;
  stderr_fd = some fd_err;
  stdout_buf = [];
  stderr_buf = [];
  exit_code = none;
  exited = false;
  exit_emitted = false;
}

-- The six ends, the fork, and the ends that the parent closes.
abbrev pub launch_effects : ℕ → List Bytes → (i o e : ℕ × ℕ) → (pid : ℕ) → List Effect
launch_effects id words i o e pid =
    opened i
    ++ (opened o ++ (opened e ++ forks id pid words ∷ closes i.0 ∷ closes o.1 ∷ closes e.1 ∷ []))

-- The parent after a fork that worked.
unfoldable pub track : ProcessState → List Bytes → (i o e : ℕ × ℕ) → (pid : ℕ) → ProcessState
unfolding new_child assign
track s words i o e pid =
    let id = s.next_id in
    record s {
      next_id = (id + 1) % 2 ^ 32;
      processes = assign id (new_child pid i.1 o.0 e.0) s.processes;
      log = s.log ++ launch_effects id words i o e pid;
    }

-- A failure leaves open what was opened before it.
unfoldable pub give_up : ProcessState → List Effect → ProcessState × Option ℕ
give_up s es = (record s { log = s.log ++ es }, none)

unfoldable pub fork_child :
    ProcessState → List Bytes → (i o e : ℕ × ℕ) → Option ℕ → ProcessState × Option ℕ
unfolding track give_up
fork_child s words i o e none = give_up s (opened i ++ (opened o ++ opened e))
fork_child s words i o e (some pid) = (track s words i o e pid, some s.next_id)

-- The pipes and the fork, which js_spawn and js_exec do in the same way: the number of the process,
-- if there is one.
unfoldable pub launch : ProcessState → List Bytes → Launch → ProcessState × Option ℕ
unfolding fork_child give_up
launch s words l = elim l.in_pipe [
  | none ↦ give_up s []
  | some i ↦ elim l.out_pipe [
    | none ↦ give_up s (opened i)
    | some o ↦ elim l.err_pipe [
      | none ↦ give_up s (opened i ++ opened o)
      | some e ↦ fork_child s words i o e l.pid
    ]
  ]
]

-- The options of spawn: `cmd` if it is a string, and `args`, empty if it is not an array.
pub record SpawnOptions : Type 0 where
  pub cmd : Option Bytes
  pub args : List Bytes

reply_process : Option ℕ → Reply
reply_process none = throws_type_error
reply_process (some id) = process id

-- `none` where the first argument is not an object.
unfoldable pub js_spawn : ProcessState → Option SpawnOptions → Launch → ProcessState × Reply
unfolding reply_process
js_spawn s none l = (s, throws_type_error)
js_spawn s (some o) l = elim o.cmd [
  | none ↦ (s, throws_type_error)
  | some cmd ↦
      let launched = launch s (map c_string (cmd ∷ o.args)) l in
      (launched.0, reply_process launched.1)
]

-- The request for the promise of the process `id`.
unfoldable pub request : ProcessState → (id resolve reject : ℕ) → ProcessState
unfolding assign
request s id resolve reject = record s {
  exec_requests =
      assign id (record { id = id; out = []; err = []; resolve = resolve; reject = reject })
        s.exec_requests;
  log = s.log ++ new_promise id resolve reject ∷ [];
}

unfoldable pub request_launched :
    ProcessState × Option ℕ → (resolve reject : ℕ) → ProcessState × Reply
unfolding request
request_launched (s, none) resolve reject = (s, throws_type_error)
request_launched (s, some id) resolve reject = (request s id resolve reject, promise id)

-- `none` where the first argument is not a string; `resolve` and `reject` are the functions that
-- JS_NewPromiseCapability returns, if it is called.
unfoldable pub js_exec :
    ProcessState → Option Bytes → Launch → (resolve reject : ℕ) → ProcessState × Reply
unfolding request_launched
js_exec s none l resolve reject = (s, throws_type_error)
js_exec s (some command) l resolve reject =
    request_launched (launch s (map c_string (codes "sh" ∷ codes "-c" ∷ command ∷ [])) l) resolve
      reject
