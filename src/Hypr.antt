-- ===== src/Hypr.antt =====
-- hypr/src/module.cpp: the Hyprland IPC plugin. `Types` holds its data, `Socket` the system calls on
-- one socket, `Events` the event thread and its queue, `Subscribers` the callbacks and their
-- dispatch, `Commands` the texts that are sent, `Jobs` the commands under way.
pub mod Types
pub mod Socket
pub mod Events
pub mod Subscribers
pub mod Commands
pub mod Jobs
mod Tests
