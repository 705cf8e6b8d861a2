-- ===== src/Builders.antt =====
-- zero_franky/zmq_server_franky.py
pub mod Franky
pub mod Parts
pub mod Motions
pub mod Impedance
pub mod Build
pub mod Options
pub mod Kwargs
pub mod Gains
