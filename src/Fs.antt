-- ===== src/Fs.antt =====
-- src/fs.rs: the FUSE file system over `DeviceOps`.
pub mod State
pub mod Inodes
pub mod Attr
pub mod Copies
pub mod Metadata
pub mod Handlers
pub mod Threads
pub mod Sound
pub mod Pushes
