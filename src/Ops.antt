-- ===== src/Ops.antt =====
-- src/ops.rs: the operations on the device, and the translation of its messages to errors.
pub mod Messages
pub mod Device
pub mod Listing
pub mod Touch
pub mod Mutations
