-- ===== src/Process/Output/Truthful.antt =====
-- What process_update_callback of process/src/module.cpp settles a promise with.
use koya_plugins.Base.{ℕ, ◌+◌, ◌^◌, ◌<◌, ◌≡◌, refl, List, [], ◌∷◌, ◌++◌, arith, find, All, tally}
use koya_plugins.Process.Types.{Effect, ProcessState, initial}
use koya_plugins.Process.Update.{Poll, update}
use koya_plugins.Process.System.{
  Event, spawns, execs, subscribes, unsubscribes, writes_to, closes_stdin, kills_with, updates,
  step, steps,
}
use koya_plugins.Process.System.Invariant.{Inv, Inv-initial}
use koya_plugins.Process.System.Reachable.{launches, step-Inv}
use koya_plugins.Process.System.Safety.{Few, steps-Inv, step-next}
use koya_plugins.Process.Output.{outs, errs, unread}
use koya_plugins.Process.Output.Calls.{
  spawn-reads, on-reads, off-reads, write-reads, close_stdin-reads, kill-reads,
}
use koya_plugins.Process.Output.Known.{Known, ReadsNothing-Known, exec-Known}
use koya_plugins.Process.Output.Answers.{Answered}
use koya_plugins.Process.Output.Delivery.{update-Known, added, update_added, added-Answered}

step-Known : (s : ProcessState) (e : Event) → Inv s → Known s → Known (step s e)
unfolding step
step-Known s (spawns o l) inv k = ReadsNothing-Known s _ (spawn-reads s o l) k
step-Known s (execs command l resolve reject) inv k = exec-Known s command l resolve reject inv k
step-Known s (subscribes ch id64 event f) inv k =
    ReadsNothing-Known s _ (on-reads s ch id64 event f) k
step-Known s (unsubscribes ch id64 event f) inv k =
    ReadsNothing-Known s _ (off-reads s ch id64 event f) k
step-Known s (writes_to id64 text) inv k = ReadsNothing-Known s _ (write-reads s id64 text) k
step-Known s (closes_stdin id64) inv k = ReadsNothing-Known s _ (close_stdin-reads s id64) k
step-Known s (kills_with id64 signal) inv k = ReadsNothing-Known s _ (kill-reads s id64 signal) k
step-Known s (updates polls) inv k = update-Known polls s inv k

steps-Known :
    (s : ProcessState) (events : List Event)
    → Inv s
    → Known s
    → s.next_id + tally launches events < 2 ^ 32
    → Known (steps s events)
unfolding steps
steps-Known s [] inv k small = k
steps-Known s (e ∷ events) inv k small =
    let next = step-Inv s e inv (omega (arith, small, inv.numbered)) in
    steps-Known (step s e) events next (step-Known s e inv k) (omega (arith, small, step-next s e))

initial-Known : Known initial
unfolding find
initial-Known = record {
  collected = λ a r found. absurd (cc found);
  unused = λ a h. unread a [] refl;
}

-- Whatever the script calls and the kernel answers, and while fewer than 2^32 - 1 children are asked
-- for: each promise that an update settles is given, on success and on failure, exactly the bytes that
-- were ever read from the two pipes of its child, that update included, in the order of the reading.
pub exec_output :
    (events : List Event) (polls : ℕ → Poll)
    → Few events
    → let s = steps initial events in
      let s' = update polls s in
      (es : List Effect) × (s'.log ≡ s.log ++ es)
      × All (Answered (λ a. outs a s'.log) (λ a. errs a s'.log)) es
exec_output events polls small =
    let inv = steps-Inv initial events Inv-initial small in
    let known = steps-Known initial events Inv-initial initial-Known small in
    (added polls _ inv known, update_added polls _ inv known, added-Answered polls _ inv known)
