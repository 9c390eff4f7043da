-- ===== src/Process.antt =====
-- process/src/module.cpp: child processes, with their pipes, listeners and promises. `Types` holds the
-- data, `Launch` js_spawn and js_exec, `Control` the methods of a process object, `Update` the update
-- hook, `Shutdown` the end, `System` all of them as events in any order, `Output` the
-- bytes that the children write, and `Environment` the reading of the environment.
pub mod Types
pub mod Launch
pub mod Control
pub mod Update
pub mod System
pub mod Output
pub mod Shutdown
pub mod Environment
mod Tests
