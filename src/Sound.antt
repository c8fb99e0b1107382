-- ===== src/Sound.antt =====
-- What reading a query of src/derived/slot.rs should return, for databases whose inputs are of low
-- durability, and what its code does on them.
pub mod Spec
pub mod Invariant
pub mod Paths
pub mod Change
pub mod Slots
pub mod Verify
pub mod Recompute
pub mod Placeholder
pub mod Refresh
pub mod Contract
pub mod Program
pub mod Inputs
pub mod Read
pub mod Deliver
pub mod Conclude
pub mod Since
pub mod Answers
pub mod Meaning
pub mod History
pub mod Advance
pub mod Writing
pub mod Garbage
pub mod Fresh
pub mod Session
