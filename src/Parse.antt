-- ===== src/Parse.antt =====
-- src/parse.rs: reading the lines that `ls -l` prints on the device.
pub mod Meta
pub mod Mode
pub mod Fields
pub mod Line
pub mod Name
