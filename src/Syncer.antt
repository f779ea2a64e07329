-- ===== src/Syncer.antt =====
-- syncer: the sync loop, and the transactions that it makes.
pub mod Env
pub mod Read
pub mod Shadow
pub mod Load
pub mod Send
pub mod Retry
pub mod Touched
pub mod Frame
pub mod Loading
pub mod Loop
pub mod Waiting
pub mod Sending
pub mod Loads
pub mod Echo
pub mod CaughtUp
pub mod Program
pub mod Replication
mod MemoryEnv
mod Tests
mod LoopTests
