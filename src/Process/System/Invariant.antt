-- ===== src/Process/System/Invariant.antt =====
-- What holds of the children of process/src/module.cpp between any two events.
use koya_plugins.Base.{
  ℕ, ◌+◌, ◌^◌, ◌<◌, ◌≤◌, ◌≡◌, refl, true, List, [], ◌∷◌, ◌++◌, arith, Bytes, Table, assign,
  assign_fresh, entries, tally, tally-append,
}
use koya_plugins.Process.Types.{
  ChildProcess, ListenerLists, ExecRequest, Effect, new_promise, ProcessState, initial,
}
use koya_plugins.Process.Launch.{launch_effects, new_child, track, request}
use koya_plugins.Process.System.Accounting.{
  started, reaped, exits_told, promised, settled, all_started,
}
use koya_plugins.Process.System.Rounds.{AllIdle}

pub record Inv (s : ProcessState) : Type 0 where
  pub numbered : s.next_id ≡ 1 + tally all_started s.log
  pub fresh : (a : ℕ) → s.next_id ≤ a → tally (started a) s.log ≡ 0
  pub once : (a : ℕ) → tally (started a) s.log ≤ 1
  pub reaping : (a : ℕ) → tally (reaped a) s.log + entries a s.processes ≡ tally (started a) s.log
  pub telling : (a : ℕ) → tally (exits_told a) s.log ≡ tally (reaped a) s.log
  pub settling :
      (a : ℕ) → tally (settled a) s.log + entries a s.exec_requests ≡ tally (promised a) s.log
  pub waiting : (a : ℕ) → entries a s.exec_requests ≤ entries a s.processes
  pub promising : (a : ℕ) → tally (promised a) s.log ≤ tally (started a) s.log
  pub idle : AllIdle s.processes
  pub open_context : s.context ≡ true

pub Inv-initial : Inv initial
Inv-initial = record {
  numbered = refl;
  fresh = λ a h. refl;
  once = λ a. omega arith;
  reaping = λ a. refl;
  telling = λ a. refl;
  settling = λ a. refl;
  waiting = λ a. omega arith;
  promising = λ a. omega arith;
  idle = tt;
  open_context = refl;
}

-- Before the numbers wrap around.
abbrev pub Unwrapped : ProcessState → Type 0
Unwrapped s = 1 + tally all_started s.log < 2 ^ 32

-- Effects that the invariant does not count.
pub record Quiet (es : List Effect) : Type 0 where
  pub none_started : tally all_started es ≡ 0
  pub started_zero : (a : ℕ) → tally (started a) es ≡ 0
  pub reaped_zero : (a : ℕ) → tally (reaped a) es ≡ 0
  pub told_zero : (a : ℕ) → tally (exits_told a) es ≡ 0
  pub settled_zero : (a : ℕ) → tally (settled a) es ≡ 0
  pub promised_zero : (a : ℕ) → tally (promised a) es ≡ 0

-- An event that only adds such effects, and may change listeners and descriptors.
pub Quiet-Inv :
    (s : ProcessState) (processes : Table ChildProcess) (listeners : Table ListenerLists)
    (es : List Effect)
    → Inv s
    → Quiet es
    → ((a : ℕ) → entries a processes ≡ entries a s.processes)
    → AllIdle processes
    → Inv (record s { processes = processes; listeners = listeners; log = s.log ++ es })
Quiet-Inv s processes listeners es inv q same_keys idle = record {
  numbered = omega (arith, inv.numbered, q.none_started, logs all_started);
  fresh = λ a h. omega (arith, inv.fresh a h, q.started_zero a, logs (started a));
  once = λ a. omega (arith, inv.once a, q.started_zero a, logs (started a));
  reaping = λ a. omega (
    arith,
    inv.reaping a,
    same_keys a,
    q.started_zero a,
    q.reaped_zero a,
    logs (started a),
    logs (reaped a),
  );
  telling = λ a.
      omega (
        arith,
        inv.telling a,
        q.told_zero a,
        q.reaped_zero a,
        logs (exits_told a),
        logs (reaped a),
      );
  settling = λ a. omega (
    arith,
    inv.settling a,
    q.settled_zero a,
    q.promised_zero a,
    logs (settled a),
    logs (promised a),
  );
  waiting = λ a. omega (arith, inv.waiting a, same_keys a);
  promising = λ a. omega (
    arith,
    inv.promising a,
    q.promised_zero a,
    q.started_zero a,
    logs (promised a),
    logs (started a),
  );
  idle = idle;
  open_context = inv.open_context;
}
  where
    logs : (w : Effect → ℕ) → tally w (s.log ++ es) ≡ tally w s.log + tally w es
    logs w = tally-append w s.log es

module _ (s : ProcessState) (inv : Inv s) where
  pub no_process : entries s.next_id s.processes ≡ 0
  no_process = omega (arith, inv.reaping s.next_id, inv.fresh s.next_id (omega arith))

  pub track-Inv :
      (words : List Bytes) (i o e : ℕ × ℕ) (pid : ℕ)
      → 2 + tally all_started s.log < 2 ^ 32
      → Inv (track s words i o e pid)
  unfolding track new_child
  track-Inv words i o e pid small = rw new_entry (record {
    numbered = ground (arith, inv.numbered, logs all_started);
    fresh = λ a h. ground (arith, inv.numbered, inv.fresh a, logs (started a));
    once = λ a. ground (arith, inv.once a, inv.fresh a, logs (started a));
    reaping = λ a. ground (arith, inv.reaping a, logs (started a), logs (reaped a));
    telling = λ a. ground (arith, inv.telling a, logs (exits_told a), logs (reaped a));
    settling = λ a. ground (arith, inv.settling a, logs (settled a), logs (promised a));
    waiting = λ a. ground (arith, inv.waiting a);
    promising = λ a. ground (arith, inv.promising a, logs (promised a), logs (started a));
    idle = ((refl, refl, refl, refl), inv.idle);
    open_context = inv.open_context;
  })
    where
      new_entry :
          assign s.next_id (new_child pid i.1 o.0 e.0) s.processes
          ≡ (s.next_id, new_child pid i.1 o.0 e.0) ∷ s.processes
      new_entry = assign_fresh s.next_id _ s.processes no_process

      logs :
          (w : Effect → ℕ)
          → tally w (s.log ++ launch_effects s.next_id words i o e pid)
            ≡ tally w s.log + tally w (launch_effects s.next_id words i o e pid)
      logs w = tally-append w s.log (launch_effects s.next_id words i o e pid)

  pub request-Inv :
      (id resolve reject : ℕ)
      → entries id s.processes ≡ 1
      → tally (promised id) s.log ≡ 0
      → Inv (request s id resolve reject)
  unfolding request
  request-Inv id resolve reject one unpromised = rw new_entry (record {
    numbered = ground (arith, inv.numbered, logs all_started);
    fresh = λ a h. ground (arith, inv.fresh a h, logs (started a));
    once = λ a. ground (arith, inv.once a, logs (started a));
    reaping = λ a. ground (arith, inv.reaping a, logs (started a), logs (reaped a));
    telling = λ a. ground (arith, inv.telling a, logs (exits_told a), logs (reaped a));
    settling = λ a. ground (arith, inv.settling a, logs (settled a), logs (promised a));
    waiting = λ a. ground (arith, inv.waiting a, no_request);
    promising = λ a. ground (
      arith,
      inv.promising a,
      inv.reaping a,
      one,
      unpromised,
      logs (promised a),
      logs (started a),
    );
    idle = inv.idle;
    open_context = inv.open_context;
  })
    where
      no_request : entries id s.exec_requests ≡ 0
      no_request = omega (arith, inv.settling id, unpromised)

      r : ExecRequest
      r = record { id = id; out = []; err = []; resolve = resolve; reject = reject }

      new_entry : assign id r s.exec_requests ≡ (id, r) ∷ s.exec_requests
      new_entry = assign_fresh id r s.exec_requests no_request

      logs :
          (w : Effect → ℕ)
          → tally w (s.log ++ new_promise id resolve reject ∷ [])
            ≡ tally w s.log + tally w (new_promise id resolve reject ∷ [])
      logs w = tally-append w s.log _
