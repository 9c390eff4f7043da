-- ===== src/Pam.antt =====
-- pam/src/module.cpp: the PAM authentication plugin. `Types` holds its data, `Conversation` the
-- callback that PAM calls, `Worker` the worker thread, `Script` the script thread, `System` the
-- two threads together; the other children hold proofs and runs.
pub mod Types
pub mod Conversation
pub mod Worker
pub mod Script
pub mod System
mod Tests
