-- ===== src/Runtime.antt =====
-- src/runtime.rs and src/runtime/local_state.rs: the query stack, the revisions and the graph of
-- blocked runtimes.
pub mod ActiveQuery
pub mod LocalState
pub mod Revisions
pub mod Graph
pub mod Handles
