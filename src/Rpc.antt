-- ===== src/Rpc.antt =====
-- Requests and responses between a client and a server (zmq_server.py, zmq_client.py, robotiq.py).
pub mod Codec
pub mod Server
pub mod Outcome
pub mod Client
pub mod Exchange
pub mod Failures
pub mod Params
