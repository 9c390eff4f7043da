-- ===== src/Dbus.antt =====
-- dbus/src: the D-Bus plugin. `Types` holds the types and values of messages, `Marshal` the writing of
-- arguments, `Calls` the state of exported objects and of method calls that come in, `Service` what is done
-- with them.
pub mod Types
pub mod Marshal
pub mod Calls
pub mod Service
mod Tests
