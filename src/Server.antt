-- ===== src/Server.antt =====
-- The robot server's requests (zmq_server.py).
pub mod Handlers
pub mod Dispatch
pub mod Runs
pub mod Loop
pub mod Updates
pub mod Meaning
