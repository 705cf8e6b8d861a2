-- ===== src/Protocol.antt =====
-- zero_franky/protocol.py
pub mod Scalars
pub mod Targets
pub mod RpcValue
pub mod Impedance
pub mod Motions
pub mod Plain
pub mod Tasks
pub mod StateFields
pub mod State
