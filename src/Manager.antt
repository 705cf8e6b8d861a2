-- ===== src/Manager.antt =====
-- `RobotManager` of zero_franky/zmq_server.py
pub mod State
pub mod Trackers
pub mod History
pub mod Stop
pub mod Shutdown
pub mod Runs
pub mod Starts
pub mod Setters
