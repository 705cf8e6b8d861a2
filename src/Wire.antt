-- ===== src/Wire.antt =====
-- The wire format of motions: the motions that a client can describe, their payloads, and the proofs
-- that the encoders write these and the builders read them back.
pub mod Data
pub mod Payload
pub mod Encode
pub mod Waypoints
pub mod EncodeMotion
pub mod Received
pub mod BuildMotion
pub mod Losses
pub mod Gains
