-- ===== src/Client.antt =====
-- The robot's client (zmq_client.py).
pub mod Robot
pub mod Wait
pub mod Gains
pub mod Trackers
pub mod Tick
pub mod Refines
