-- ===== src/Process/System/Safety.antt =====
-- What a script may rely on for the children that it starts through process/src/module.cpp.
use koya_plugins.Base.{
  ℕ, ◌+◌, ◌^◌, ◌<◌, ◌≤◌, ◌≡◌, refl, Option, none, some, List, [], ◌∷◌, map, arith, Bytes, codes,
  c_string, find, entries, tally, bytes_eq, Option-cases, Bool-cases, inl, inr, ◌%◌,
}
use koya_plugins.Process.Types.{ProcessState, initial}
use koya_plugins.Process.Launch.{
  track, give_up, launch, js_spawn, request, request_launched, js_exec,
}
use koya_plugins.Process.Control.{event_of, js_on, js_off, js_write, js_close_stdin, js_kill}
use koya_plugins.Process.Update.{update}
use koya_plugins.Process.System.{
  Event, spawns, execs, subscribes, unsubscribes, writes_to, closes_stdin, kills_with, updates,
  step, steps,
}
use koya_plugins.Process.System.Accounting.{started, reaped, exits_told, promised, settled}
use koya_plugins.Process.System.Invariant.{Inv, Inv-initial}
use koya_plugins.Process.System.Starting.{Launches, fails, works, launch-Launches}
use koya_plugins.Process.System.Reachable.{launches, step-Inv}

-- No event uses more numbers than it may.
Launches-next :
    (s : ProcessState) (words : List Bytes) {r : ProcessState × Option ℕ}
    → Launches s words r
    → r.0.next_id ≤ s.next_id + 1
unfolding give_up track
Launches-next s words (fails es q) = omega arith
Launches-next s words (works i o e pid) = omega arith

request_launched-next :
    (r : ProcessState × Option ℕ) (resolve reject : ℕ)
    → (request_launched r resolve reject).0.next_id ≡ r.0.next_id
unfolding request_launched request
request_launched-next (s, none) resolve reject = refl
request_launched-next (s, some id) resolve reject = refl

pub step-next : (s : ProcessState) (e : Event) → (step s e).next_id ≤ s.next_id + launches e
unfolding step js_spawn js_exec js_on js_off js_write js_close_stdin js_kill update
step-next s (spawns none l) = omega arith
step-next s (spawns (some o) l) = elim (Option-cases o.cmd) [
  | inl e ↦ rw (e, js_spawn) (omega arith)
  | inr (cmd, e) ↦
      rw (e, js_spawn) (Launches-next s _ (launch-Launches s (map c_string (cmd ∷ o.args)) l))
]
step-next s (execs none l resolve reject) = omega arith
step-next s (execs (some command) l resolve reject) = omega (
  arith,
  request_launched-next (launch s (map c_string (codes "sh" ∷ codes "-c" ∷ command ∷ [])) l) resolve
      reject,
  Launches-next s _ (launch-Launches s (map c_string (codes "sh" ∷ codes "-c" ∷ command ∷ [])) l),
)
step-next s (updates polls) = elim (Bool-cases s.context) [
  | inl e ↦ rw e (omega arith)
  | inr e ↦ rw e (omega arith)
]
step-next s (subscribes ch id64 event f) = elim (Bool-cases (bytes_eq event (event_of ch))) [
  | inl e ↦ rw (e, step, js_on) (omega arith)
  | inr e ↦ rw (e, step, js_on) (omega arith)
]
step-next s (unsubscribes ch id64 event f) = elim (Bool-cases (bytes_eq event (event_of ch))) [
  | inl e ↦ rw (e, step, js_off) (omega arith)
  | inr e ↦ rw (e, step, js_off) (omega arith)
]
step-next s (writes_to id64 text) = elim (Option-cases (find (id64 % 2 ^ 32) s.processes)) [
  | inl e ↦ rw (e, step, js_write) (omega arith)
  | inr (p, e) ↦ rw (e, step, js_write) (omega arith)
]
step-next s (closes_stdin id64) = elim (Option-cases (find (id64 % 2 ^ 32) s.processes)) [
  | inl e ↦ rw (e, step, js_close_stdin) (omega arith)
  | inr (p, e) ↦ rw (e, step, js_close_stdin) (omega arith)
]
step-next s (kills_with id64 signal) = elim (Option-cases (find (id64 % 2 ^ 32) s.processes)) [
  | inl e ↦ rw (e, step, js_kill) (omega arith)
  | inr (p, e) ↦ rw (e, step, js_kill) (omega arith)
]

pub steps-Inv :
    (s : ProcessState) (events : List Event)
    → Inv s
    → s.next_id + tally launches events < 2 ^ 32
    → Inv (steps s events)
unfolding steps
steps-Inv s [] inv small = inv
steps-Inv s (e ∷ events) inv small =
    let next = step-Inv s e inv (omega (arith, small, inv.numbered)) in
    steps-Inv (step s e) events next (omega (arith, small, step-next s e))

-- The number of calls of spawn and exec stays below the range of the numbers.
abbrev pub Few : List Event → Type 0
Few events = 1 + tally launches events < 2 ^ 32

-- Whatever the script calls and the kernel answers, and while fewer than 2^32 - 1 children are asked
-- for: a number stands for at most one child; that child is either in the table or was reaped exactly
-- once, and an exit event was raised exactly once for it if it was reaped and never if it was not.
pub children_reaped_once :
    (events : List Event) (a : ℕ)
    → Few events
    → let s = steps initial events in
      (tally (started a) s.log ≤ 1)
      × (tally (reaped a) s.log + entries a s.processes ≡ tally (started a) s.log)
      × (tally (exits_told a) s.log ≡ tally (reaped a) s.log)
children_reaped_once events a small =
    let inv = steps-Inv initial events Inv-initial small in
    (inv.once a, inv.reaping a, inv.telling a)

-- Whatever the script calls and the kernel answers, and while fewer than 2^32 - 1 children are asked
-- for: a promise of exec is made at most once for a number, and it is either still pending, with its
-- child in the table, or was settled exactly once; once the child was reaped, it is settled.
pub exec_settled_once :
    (events : List Event) (a : ℕ)
    → Few events
    → let s = steps initial events in
      (tally (promised a) s.log ≤ 1)
      × (tally (settled a) s.log + entries a s.exec_requests ≡ tally (promised a) s.log)
      × (entries a s.exec_requests ≤ entries a s.processes)
      × (tally (reaped a) s.log ≡ 1 → tally (settled a) s.log ≡ tally (promised a) s.log)
exec_settled_once events a small =
    let inv = steps-Inv initial events Inv-initial small in
    (
      omega (arith, inv.once a, inv.promising a),
      inv.settling a,
      inv.waiting a,
      λ reap. omega (arith, reap, inv.once a, inv.reaping a, inv.waiting a, inv.settling a),
    )
