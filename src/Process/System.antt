-- ===== src/Process/System.antt =====
-- The calls of a script and the update hook of process/src/module.cpp, in any order.
pub mod Accounting
pub mod Rounds
pub mod Loops
pub mod Burials
pub mod Invariant
pub mod Updates
pub mod Starting
pub mod Reachable
pub mod Safety
pub mod Balance
pub mod Descriptors
use koya_plugins.Base.{ℕ, Option, List, [], ◌∷◌, Bytes}
use koya_plugins.Process.Types.{ProcessState}
use koya_plugins.Process.Launch.{Launch, SpawnOptions, js_spawn, js_exec}
use koya_plugins.Process.Control.{Channel, js_on, js_off, js_write, js_close_stdin, js_kill}
use koya_plugins.Process.Update.{Poll, update}

pub data Event : Type 0 where
  spawns : Option SpawnOptions → Launch → Event
  execs : Option Bytes → Launch → (resolve reject : ℕ) → Event
  subscribes unsubscribes : Channel → (id64 : ℕ) → Bytes → (function : ℕ) → Event
  writes_to : (id64 : ℕ) → Bytes → Event
  closes_stdin : (id64 : ℕ) → Event
  kills_with : (id64 signal : ℕ) → Event
  updates : (ℕ → Poll) → Event

unfoldable pub step : ProcessState → Event → ProcessState
step s (spawns o l) = (js_spawn s o l).0
step s (execs command l resolve reject) = (js_exec s command l resolve reject).0
step s (subscribes ch id64 event f) = js_on s ch id64 event f
step s (unsubscribes ch id64 event f) = js_off s ch id64 event f
step s (writes_to id64 text) = (js_write s id64 text).0
step s (closes_stdin id64) = (js_close_stdin s id64).0
step s (kills_with id64 signal) = (js_kill s id64 signal).0
step s (updates polls) = update polls s

unfoldable pub steps : ProcessState → List Event → ProcessState
unfolding step
steps s [] = s
steps s (e ∷ events) = steps (step s e) events
