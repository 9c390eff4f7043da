-- ===== src/Ws.antt =====
-- ws/src/module.cpp: the WebSocket plugin. `Types` holds its data, `Sockets` create and the methods of
-- a socket, `Drain` the delivery of messages, the update and the shutdown.
pub mod Types
pub mod Sockets
pub mod Drain
mod Tests
