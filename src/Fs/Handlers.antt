-- ===== src/Fs/Handlers.antt =====
-- src/fs.rs: the request handlers. A reply is the handler's result, and `reply.error` its error.
pub mod Entries
pub mod Directories
pub mod Files
pub mod Changes
