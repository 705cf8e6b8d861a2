-- ===== src/Gripper.antt =====
-- The gripper's server and client (zero_franky/robotiq.py).
pub mod Units
pub mod Device
pub mod Manager
pub mod Server
pub mod Keeps
pub mod Runs
pub mod Proxy
pub mod Commands
pub mod Messages
pub mod Requests
pub mod Refines
