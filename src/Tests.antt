-- ===== src/Tests.antt =====
-- Runs of the model at fixed inputs, and the theorems at such inputs.
pub mod Sample
mod Interning
mod Nodes
mod Session
mod Handles
mod Witness
