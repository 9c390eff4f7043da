-- ===== src/Process/System/Descriptors.antt =====
-- Who holds the descriptors that process/src/module.cpp opens.
use koya_plugins.Base.{
  ℕ, ◌+◌, ◌^◌, ◌<◌, ◌≡◌, refl, none, some, List, [], ◌∷◌, map, arith, Bytes, codes, c_string, find,
  tally, tally-append, bytes_eq, Option-cases, Bool-cases, inl, inr, ◌%◌,
}
use koya_plugins.Process.Types.{ProcessState, initial}
use koya_plugins.Process.Launch.{launch, js_spawn, js_exec}
use koya_plugins.Process.Control.{
  event_of, js_on, js_off, listeners_on, listeners_of, write_to, js_write, js_kill,
}
use koya_plugins.Process.System.{
  Event, spawns, execs, subscribes, unsubscribes, writes_to, closes_stdin, kills_with, updates,
  step, steps,
}
use koya_plugins.Process.System.Accounting.{opened_fd, closed_fd}
use koya_plugins.Process.System.Rounds.{fds}
use koya_plugins.Process.System.Invariant.{Inv, Inv-initial}
use koya_plugins.Process.System.Reachable.{launches, step-Inv}
use koya_plugins.Process.System.Safety.{Few, step-next}
use koya_plugins.Process.System.Balance.{
  lost, leaks, Balanced, launch-Balanced, request_launched-Balanced, without_silent,
  update-Balanced, write_to_silent, close_stdin-Balanced,
}

step-Balanced :
    (d n : ℕ) (s : ProcessState) (e : Event)
    → Inv s
    → Balanced d s n
    → Balanced d (step s e) (n + leaks d e)
unfolding step leaks js_spawn js_exec js_on js_off js_write js_kill
step-Balanced d n s (spawns none l) inv b = omega (arith, b)
step-Balanced d n s (spawns (some o) l) inv b = elim (Option-cases o.cmd) [
  | inl e ↦ rw (e, js_spawn, leaks) (omega (arith, b))
  | inr (cmd, e) ↦
      rw (e, js_spawn, leaks) (launch-Balanced d n s (map c_string (cmd ∷ o.args)) l inv b)
]
step-Balanced d n s (execs none l resolve reject) inv b = omega (arith, b)
step-Balanced d n s (execs (some command) l resolve reject) inv b =
    request_launched-Balanced d (n + lost d l) (launch s words l) resolve reject
      (launch-Balanced d n s words l inv b)
  where
    words : List Bytes
    words = map c_string (codes "sh" ∷ codes "-c" ∷ command ∷ [])
step-Balanced d n s (updates polls) inv b = omega (arith, update-Balanced d n polls s inv b)
step-Balanced d n s (subscribes ch id64 event f) inv b =
    elim (Bool-cases (bytes_eq event (event_of ch))) [
      | inl e ↦
          rw (e, step, js_on)
            (omega
              (arith, b, tally-append (opened_fd d) s.log _, tally-append (closed_fd d) s.log _))
      | inr e ↦ rw (e, step, js_on) (omega (arith, b))
    ]
step-Balanced d n s (unsubscribes ch id64 event f) inv b =
    elim (Bool-cases (bytes_eq event (event_of ch))) [
      | inl e ↦
          rw (e, step, js_off)
            (let gone =
                without_silent d f (listeners_on ch (listeners_of (id64 % 2 ^ 32) s.listeners)) in
              omega (
                arith,
                b,
                gone.0,
                gone.1,
                tally-append (opened_fd d) s.log _,
                tally-append (closed_fd d) s.log _,
              ))
      | inr e ↦ rw (e, step, js_off) (omega (arith, b))
    ]
step-Balanced d n s (writes_to id64 text) inv b =
    elim (Option-cases (find (id64 % 2 ^ 32) s.processes)) [
      | inl e ↦ rw (e, step, js_write) (omega (arith, b))
      | inr (p, e) ↦
          rw (e, step, js_write)
            (omega (
              arith,
              b,
              (write_to_silent d p text).0,
              (write_to_silent d p text).1,
              tally-append (opened_fd d) s.log (write_to p text),
              tally-append (closed_fd d) s.log (write_to p text),
            ))
    ]
step-Balanced d n s (closes_stdin id64) inv b = omega (arith, close_stdin-Balanced d n id64 s b)
step-Balanced d n s (kills_with id64 signal) inv b =
    elim (Option-cases (find (id64 % 2 ^ 32) s.processes)) [
      | inl e ↦ rw (e, step, js_kill) (omega (arith, b))
      | inr (p, e) ↦
          rw (e, step, js_kill)
            (omega
              (arith, b, tally-append (opened_fd d) s.log _, tally-append (closed_fd d) s.log _))
    ]

steps-Balanced :
    (d n : ℕ) (s : ProcessState) (events : List Event)
    → Inv s
    → s.next_id + tally launches events < 2 ^ 32
    → Balanced d s n
    → Balanced d (steps s events) (n + tally (leaks d) events)
unfolding steps
steps-Balanced d n s [] inv small b = omega (arith, b)
steps-Balanced d n s (e ∷ events) inv small b =
    let next = step-Inv s e inv (omega (arith, small, inv.numbered)) in
    omega (
      arith,
      steps-Balanced d (n + leaks d e) (step s e) events next (omega (arith, small, step-next s e))
          (step-Balanced d n s e inv b),
    )

-- Whatever the script calls and the kernel answers, and while fewer than 2^32 - 1 children are asked
-- for: each time that a descriptor was opened, it was closed, or a child in the table holds it, or
-- it was opened for a call whose later pipe or fork failed; descriptors of such calls are never closed.
pub descriptors_balanced :
    (events : List Event) (d : ℕ)
    → Few events
    → let s = steps initial events in
      tally (opened_fd d) s.log
      ≡ tally (closed_fd d) s.log + tally (fds d) s.processes + tally (leaks d) events
descriptors_balanced events d small =
    omega (arith, steps-Balanced d 0 initial events Inv-initial small refl)
