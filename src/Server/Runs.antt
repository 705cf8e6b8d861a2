-- ===== src/Server/Runs.antt =====
-- Requests as runs of the manager (zmq_server.py).
pub mod Same
pub mod Follows
pub mod Kept
pub mod Requests
