-- ===== src/Fs/Sound.antt =====
-- src/fs.rs: the tables of handles and local copies, and when they agree: which handles there are,
-- which copies are in use, and what the reference counts say.
pub mod Tables
pub mod References
pub mod Mapping
pub mod Handles
pub mod Calls
pub mod Acquire
pub mod Release
pub mod Opened
pub mod Frames
pub mod Changes
pub mod Handlers
pub mod Requests
