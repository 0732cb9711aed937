-- ===== src/Check.antt =====
-- zownc/crates/zown-check/src/lib.rs: the static checker.
pub mod Sets
pub mod Words
pub mod State
pub mod Visit
pub mod Walk
pub mod Defines
pub mod Frame
pub mod FrameWalk
pub mod Uses
pub mod Binds
pub mod Known
pub mod Names
pub mod Source
mod Tests
