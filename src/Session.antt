-- ===== src/Session.antt =====
-- zero_franky/tracker_session.py
pub mod Hardware
pub mod State
pub mod Stop
pub mod Setters
pub mod Policy
pub mod Merge
pub mod CartesianGains
pub mod Handle
pub mod Run
