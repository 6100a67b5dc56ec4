-- ===== src/Deque.antt =====
-- src/lib.rs: the Chase-Lev work-stealing deque. The state and the operations stand in `Buffer`,
-- `Inner`, `Worker` and `Stealer`; `Slots` and `Rep` relate them to the list of queued elements.
pub mod Buffer
pub mod Inner
pub mod Steal
pub mod Worker
pub mod Stealer
pub mod Slots
pub mod Pow
pub mod Rep
pub mod Push
pub mod Take
pub mod Spec
pub mod Refine
pub mod Batch
pub mod Threads
pub mod Shared
pub mod OwnerSteps
pub mod OwnerPop
pub mod ThiefSteps
pub mod Acts
pub mod Once
mod Tests
mod ThreadTests
