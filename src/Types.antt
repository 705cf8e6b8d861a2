-- ===== src/Types.antt =====
-- zero_franky/types.py: the client's stand-ins for franky's classes, as constructors of objects.
pub mod Vectors
pub mod Geometry
pub mod Affine
pub mod Waypoints
pub mod Module
pub mod Motions
pub mod Lengths
pub mod Gains
