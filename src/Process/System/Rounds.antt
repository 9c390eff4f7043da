-- ===== src/Process/System/Rounds.antt =====
-- What the first loop of process_update_callback of process/src/module.cpp does to processes that have
-- not ended before it.
use koya_plugins.Base.{
  ℕ, ◌+◌, ◌≤◌, ◌≡◌, ◌⊎◌, inl, inr, refl, true, false, Option, none, some, List, [], ◌∷◌, ◌++◌, map,
  arith, is_empty, Table, find, entries, find-entries, find-replace, entries_found, entries-replace,
  tally, tally-append, All, Option-cases, Bool-cases, ◌==◌, if◌then◌else◌,
}
use koya_plugins.Process.Types.{
  ChildProcess, ExecRequest, Emit, exit, Effect, reads_stdout, reads_stderr, reaps,
}
use koya_plugins.Process.Update.{
  Status, Poll, process_poll_io, io_effects, gather, data_events, code_of, wait_for, wait_effects,
  exit_value, final_of, Round, settle_child, poll_one,
}
use koya_plugins.Process.System.Accounting.{same, exit_event, final_id, Mute, tally-map_silent}

-- Between two updates every process is so.
abbrev pub Idle : ChildProcess → Type 0
Idle p = (p.exited ≡ false) × (p.exit_emitted ≡ false) × (p.stdout_buf ≡ []) × (p.stderr_buf ≡ [])

abbrev pub AllIdle : Table ChildProcess → Type 0
AllIdle = All (λ (e : ℕ × ChildProcess). Idle e.1)

-- How often a process holds a descriptor.
abbrev pub fd_is : ℕ → Option ℕ → ℕ
fd_is d none = 0
fd_is d (some fd) = same d fd

abbrev pub fds : ℕ → ℕ × ChildProcess → ℕ
fds d e = fd_is d e.1.stdin_fd + (fd_is d e.1.stdout_fd + fd_is d e.1.stderr_fd)

abbrev pub reap_of : (Effect → ℕ) → ℕ → ℕ
reap_of w id = w (reaps id)

-- Idle, or among the dead.
abbrev pub Sorted : List ℕ → ℕ × ChildProcess → Type 0
Sorted dead e = Idle e.1 ⊎ (1 ≤ tally (same e.0) dead)

gather-entries :
    (a id : ℕ) (p : ChildProcess) (requests : Table ExecRequest)
    → entries a (gather id p requests) ≡ entries a requests
unfolding gather
gather-entries a id p requests = elim (Option-cases (find id requests)) [
  | inl e ↦ rw (e, gather)
  | inr (r, e) ↦ rw (e, gather) (entries-replace id a _ requests)
]

io_effects-Mute :
    (w : Effect → ℕ) → Mute w → (id : ℕ) (poll : Poll) → tally w (io_effects id poll) ≡ 0
unfolding io_effects
io_effects-Mute w mute id poll = omega (
  arith,
  tally-append w (map (reads_stdout id) poll.out) (map (reads_stderr id) poll.err),
  tally-map_silent w (reads_stdout id) (mute.on_out id) poll.out,
  tally-map_silent w (reads_stderr id) (mute.on_err id) poll.err,
)

abbrev pub exits_of : ℕ → Emit → ℕ
exits_of a e = exit_event a e

data_events_silent : (a id : ℕ) (p : ChildProcess) → tally (exit_event a) (data_events id p) ≡ 0
unfolding data_events
data_events_silent a id p = elim (Bool-cases (is_empty p.stdout_buf)) [
  | inl e ↦ elim (Bool-cases (is_empty p.stderr_buf)) [
    | inl f ↦ rw (e, f) refl
    | inr f ↦ rw (e, f) refl
  ]
  | inr e ↦ elim (Bool-cases (is_empty p.stderr_buf)) [
    | inl f ↦ rw (e, f) refl
    | inr f ↦ rw (e, f) refl
  ]
]

-- One process in the loop.
pub record Polls (id : ℕ) (p : ChildProcess) (requests : Table ExecRequest) (r : Round)
    : Type 0 where
  pub key : (a : ℕ) → entries a r.processes ≡ same a id
  pub dead_once : (a : ℕ) → tally (same a) r.dead ≤ same a id
  pub reaping : (w : Effect → ℕ) → Mute w → tally w r.effects ≡ tally (reap_of w) r.dead
  pub telling : (a : ℕ) → tally (exit_event a) r.events ≡ tally (same a) r.dead
  pub requesting : (a : ℕ) → entries a r.requests ≡ entries a requests
  pub finishing :
      (a : ℕ)
      → tally (final_id a) r.finals ≡ (if entries a requests == 0 then 0 else tally (same a) r.dead)
  pub sorting : All (Sorted r.dead) r.processes
  pub holding : (d : ℕ) → tally (fds d) r.processes ≡ fds d (id, p)

module _ (id : ℕ) (full : ChildProcess) (waiting : full.exited ≡ false)
    (silent : full.exit_emitted ≡ false) where
  settle_none : (settle_child id none full).0 ≡ record full { stdout_buf = []; stderr_buf = [] }
  unfolding settle_child wait_for
  settle_none = rw waiting refl

  settle_none_events : (settle_child id none full).1 ≡ data_events id full ++ []
  unfolding settle_child wait_for
  settle_none_events = rw waiting refl

  settle_some :
      (st : Status)
      → (settle_child id (some st) full).0 ≡ record full {
        stdout_buf = [];
        stderr_buf = [];
        exited = true;
        exit_code = some (code_of st);
        exit_emitted = true;
      }
  unfolding settle_child wait_for
  settle_some st = rw silent refl

  settle_some_events :
      (st : Status)
      → (settle_child id (some st) full).1 ≡ data_events id full ++ exit id (code_of st) ∷ []
  unfolding settle_child wait_for exit_value
  settle_some_events st = rw silent refl

module _ (id : ℕ) (poll : Poll) (p : ChildProcess) (requests : Table ExecRequest)
    (idle : Idle p) where
  full : ChildProcess
  full = process_poll_io p poll

  gathered : Table ExecRequest
  gathered = gather id full requests

  emptied : ChildProcess
  emptied = record full { stdout_buf = []; stderr_buf = [] }

  poll_running :
      poll.status ≡ none
      → poll_one id poll p requests ≡ record {
        processes = (id, emptied) ∷ [];
        requests = gathered;
        effects = io_effects id poll ++ [];
        events = data_events id full ++ [];
        finals = [];
        dead = [];
      }
  unfolding poll_one process_poll_io wait_effects full gathered emptied
  poll_running e =
      rw
        (
          e,
          settle_none id full (idle.0) (idle.1),
          settle_none_events id full (idle.0) (idle.1),
          idle.0,
        )
        refl

  ended : Status → ChildProcess
  ended st = record full {
    stdout_buf = [];
    stderr_buf = [];
    exited = true;
    exit_code = some (code_of st);
    exit_emitted = true;
  }

  poll_ended :
      (st : Status)
      → poll.status ≡ some st
      → poll_one id poll p requests ≡ record {
        processes = (id, ended st) ∷ [];
        requests = gathered;
        effects = io_effects id poll ++ reaps id ∷ [];
        events = data_events id full ++ exit id (code_of st) ∷ [];
        finals = final_of id (code_of st) (find id gathered);
        dead = id ∷ [];
      }
  unfolding poll_one process_poll_io wait_effects exit_value full gathered ended
  poll_ended st e =
      rw
        (
          e,
          settle_some id full (idle.0) (idle.1) st,
          settle_some_events id full (idle.0) (idle.1) st,
        )
        refl

  final_of-finishing :
      (a code : ℕ)
      → tally (final_id a) (final_of id code (find id gathered))
        ≡ (if entries a requests == 0 then 0 else same a id)
  unfolding final_of gathered gather
  final_of-finishing a code = elim (Option-cases (find id requests)) [
    | inl e ↦ rw (e, gather) (rw (e, final_of) (ground (arith, find-entries id a requests e)))
    | inr (r, e) ↦
        rw (e, gather)
          (rw (find-replace id requests r _ e, final_of)
            (ground (arith, entries_found id requests r e)))
  ]

  pub poll_one-Polls : Polls id p requests (poll_one id poll p requests)
  unfolding full gathered ended process_poll_io emptied
  poll_one-Polls = elim (Option-cases poll.status) [
    | inl e ↦ rw (poll_running e) (record {
      key = λ a. omega arith;
      dead_once = λ a. omega arith;
      reaping = λ w mute.
          omega (arith, tally-append w (io_effects id poll) [], io_effects-Mute w mute id poll);
      telling = λ a. omega (
        arith,
        tally-append (exit_event a) (data_events id full) [],
        data_events_silent a id full,
      );
      requesting = λ a. gather-entries a id full requests;
      finishing = λ a. ground arith;
      sorting = (inl (idle.0, idle.1, refl, refl), tt);
      holding = λ d. omega arith;
    })
    | inr (st, e) ↦ rw (poll_ended st e) (record {
      key = λ a. omega arith;
      dead_once = λ a. omega arith;
      reaping = λ w mute. omega (
        arith,
        tally-append w (io_effects id poll) (reaps id ∷ []),
        io_effects-Mute w mute id poll,
      );
      telling = λ a. omega (
        arith,
        tally-append (exit_event a) (data_events id full) (exit id (code_of st) ∷ []),
        data_events_silent a id full,
      );
      requesting = λ a. gather-entries a id full requests;
      finishing = λ a. ground (arith, final_of-finishing a (code_of st));
      sorting = (inr (ground arith), tt);
      holding = λ d. omega arith;
    })
  ]
