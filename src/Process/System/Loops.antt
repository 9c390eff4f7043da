-- ===== src/Process/System/Loops.antt =====
-- The first loop of process_update_callback of process/src/module.cpp as a whole.
use koya_plugins.Base.{
  ℕ, ◌+◌, ◌≤◌, ◌≡◌, inl, inr, refl, List, [], ◌∷◌, ◌++◌, arith, Table, entries, tally, tally-append,
  All, All-append, ◌==◌, if◌then◌else◌,
}
use koya_plugins.Process.Types.{ChildProcess, ExecRequest, Effect}
use koya_plugins.Process.Update.{Poll, Round, poll_one, poll_all}
use koya_plugins.Process.System.Accounting.{same, exit_event, final_id, Mute}
use koya_plugins.Process.System.Rounds.{AllIdle, fds, reap_of, Sorted, Polls, poll_one-Polls}

pub record Polled (processes : Table ChildProcess) (requests : Table ExecRequest) (r : Round)
    : Type 0 where
  pub keys : (a : ℕ) → entries a r.processes ≡ entries a processes
  pub dead_few : (a : ℕ) → tally (same a) r.dead ≤ entries a processes
  pub reaping : (w : Effect → ℕ) → Mute w → tally w r.effects ≡ tally (reap_of w) r.dead
  pub telling : (a : ℕ) → tally (exit_event a) r.events ≡ tally (same a) r.dead
  pub requesting : (a : ℕ) → entries a r.requests ≡ entries a requests
  pub finishing :
      (a : ℕ)
      → tally (final_id a) r.finals ≡ (if entries a requests == 0 then 0 else tally (same a) r.dead)
  pub sorting : All (Sorted r.dead) r.processes
  pub holding : (d : ℕ) → tally (fds d) r.processes ≡ tally (fds d) processes

Sorted-more :
    (dead more : List ℕ) (t : Table ChildProcess)
    → All (Sorted more) t
    → All (Sorted (dead ++ more)) t
Sorted-more dead more [] h = tt
Sorted-more dead more ((id, p) ∷ t) h = (wider (h.0), Sorted-more dead more t (h.1))
  where
    wider : Sorted more (id, p) → Sorted (dead ++ more) (id, p)
    wider (inl idle) = inl idle
    wider (inr m) = inr (omega (arith, m, tally-append (same id) dead more))

Sorted-before :
    (dead more : List ℕ) (t : Table ChildProcess)
    → All (Sorted dead) t
    → All (Sorted (dead ++ more)) t
Sorted-before dead more [] h = tt
Sorted-before dead more ((id, p) ∷ t) h = (wider (h.0), Sorted-before dead more t (h.1))
  where
    wider : Sorted dead (id, p) → Sorted (dead ++ more) (id, p)
    wider (inl idle) = inl idle
    wider (inr m) = inr (omega (arith, m, tally-append (same id) dead more))

pub entries-append {ℓ} :
    {V : Type ℓ} (a : ℕ) (s t : Table V) → entries a (s ++ t) ≡ entries a s + entries a t
entries-append a [] t = omega arith
entries-append a ((k, v) ∷ s) t = omega (arith, entries-append a s t)

module _ (id : ℕ) (p : ChildProcess) (processes : Table ChildProcess) (requests : Table ExecRequest)
    (one rest : Round) where
  joined : Round
  joined = record {
    processes = one.processes ++ rest.processes;
    requests = rest.requests;
    effects = one.effects ++ rest.effects;
    events = one.events ++ rest.events;
    finals = one.finals ++ rest.finals;
    dead = one.dead ++ rest.dead;
  }

  Polls-Polled :
      Polls id p requests one
      → Polled processes one.requests rest
      → Polled ((id, p) ∷ processes) requests joined
  unfolding joined
  Polls-Polled first others = record {
    keys = λ a.
        omega (arith, entries-append a one.processes rest.processes, first.key a, others.keys a);
    dead_few = λ a.
        omega
          (arith, tally-append (same a) one.dead rest.dead, first.dead_once a, others.dead_few a);
    reaping = λ w mute. omega (
      arith,
      tally-append w one.effects rest.effects,
      tally-append (reap_of w) one.dead rest.dead,
      first.reaping w mute,
      others.reaping w mute,
    );
    telling = λ a. omega (
      arith,
      tally-append (exit_event a) one.events rest.events,
      tally-append (same a) one.dead rest.dead,
      first.telling a,
      others.telling a,
    );
    requesting = λ a. omega (arith, first.requesting a, others.requesting a);
    finishing = λ a. ground (
      arith,
      tally-append (final_id a) one.finals rest.finals,
      tally-append (same a) one.dead rest.dead,
      first.finishing a,
      others.finishing a,
      first.requesting a,
    );
    sorting =
        All-append (Sorted (one.dead ++ rest.dead)) one.processes rest.processes
          (Sorted-before one.dead rest.dead one.processes first.sorting)
          (Sorted-more one.dead rest.dead rest.processes others.sorting);
    holding = λ d. omega (
      arith,
      tally-append (fds d) one.processes rest.processes,
      first.holding d,
      others.holding d,
    );
  }

pub poll_all-Polled :
    (polls : ℕ → Poll) (processes : Table ChildProcess) (requests : Table ExecRequest)
    → AllIdle processes
    → Polled processes requests (poll_all polls processes requests)
unfolding poll_all joined
poll_all-Polled polls [] requests idle = record {
  keys = λ a. refl;
  dead_few = λ a. omega arith;
  reaping = λ w mute. refl;
  telling = λ a. refl;
  requesting = λ a. refl;
  finishing = λ a. ground arith;
  sorting = tt;
  holding = λ d. refl;
}
poll_all-Polled polls ((id, p) ∷ processes) requests idle =
    let one = poll_one id (polls id) p requests in
    Polls-Polled id p processes requests one (poll_all polls processes one.requests)
      (poll_one-Polls id (polls id) p requests (idle.0))
      (poll_all-Polled polls processes one.requests (idle.1))
