-- ===== src/Gripper/Manager.antt =====
-- GripperManager (robotiq.py).
pub mod State
pub mod Poll
pub mod Lock
