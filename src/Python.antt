-- ===== src/Python.antt =====
-- The part of Python that the source relies on: values, exceptions, attributes, conversions.
pub mod Errors
pub mod Values
pub mod Attributes
pub mod Exec
