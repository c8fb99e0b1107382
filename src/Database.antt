-- ===== src/Database.antt =====
-- A database: its runtime, the input slots of src/input.rs and the derived slots of src/derived.rs.
pub mod Program
pub mod State
pub mod Calls
pub mod Validate
pub mod Execute
pub mod Read
pub mod Write
pub mod Debug
pub mod Panic
pub mod Balance
pub mod Set
