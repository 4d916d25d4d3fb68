-- ===== src/Fs/Threads.antt =====
-- src/fs.rs: `acquire_copy` and `release_copy` on several threads at once. A thread of this model is
-- one use of a local copy: a call of `acquire_copy` and, where it succeeds, the call of
-- `release_copy` that gives its reference back, with an open handle or a truncation in between. A
-- worker of the session runs many of them, one call at a time, and a worker with several open
-- handles stands for as many uses.
pub mod Program
pub mod Protocol
pub mod Invariant
pub mod Moves
pub mod Evictions
pub mod Settled
pub mod System
pub mod Safety
pub mod Progress
pub mod Code
pub mod View
pub mod Refines
pub mod Guarantees
pub mod Alone
