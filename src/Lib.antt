-- ===== src/Lib.antt =====
-- A model of salsa, a crate for incremental computation: a database keeps inputs and memoizes
-- queries over them, and on a read it runs only the queries whose inputs may have changed.
--
-- The parts, and the files of the repository that they model (paths from its root):
--
-- - Revision, Durability: src/revision.rs and src/durability.rs. A revision is a positive number
--   below 2 ^ 64; `fetch_then_increment` keeps the wrap-around of the atomic counter.
-- - Runtime: `Runtime/Revisions` is the pending revision and the vector `revisions` of
--   `SharedState` in src/runtime.rs, `Runtime/ActiveQuery` and `Runtime/LocalState` are the stack of
--   running queries (src/runtime.rs, src/runtime/local_state.rs), `Runtime/Graph` is
--   `DependencyGraph`, which runtimes ask before they wait for one another. `Runtime/Handles` is a
--   database with snapshots: `Runtime::snapshot`, `RevisionGuard` and both halves of
--   `with_incremented_revision`, as a step relation.
-- - Derived: the data of src/derived/slot.rs, and the operations on a slot that run no query.
-- - Database: the state of a database with one handle, and what runs queries. `Program` stands for
--   the user's query functions, `Execute` for `execute_query_implementation` and the making of a
--   memo, `Validate` for `validate_memoized_value`, `Read` for `read`, `read_upgrade`, `probe` and
--   `maybe_changed_since`, `Write` for `set`, `synthetic_write` and `sweep`,
--   `Debug` for the views of src/debug.rs.
--   `Database/Panic` is about the slot of a read that panics, `Database/Balance` about the stack of
--   running queries and the placeholders of all slots; its parts follow those of `Database`.
-- - Sweep: the strategies of src/lib.rs.
-- - Lru: src/lru.rs, the list of the nodes that may keep a value. `IsIndexed` of `Lru/Index` says
--   that entries and indices agree, `IsZoned` that the zones are not empty and the list fits.
--   `record_use` calls itself at most once more, so fuel 2 is enough.
-- - InternId: src/intern_id.rs.
-- - Interned: the tables of src/interned.rs, `Interned/Sweep` their garbage collection, and
--   `Interned/Fetch` both kinds of interned queries. `IsConsistent` of `Interned/Consistent` says
--   that each key of the map has a slot at its index, and that the free list ends.
-- - Sound: what a query means with no memo and no revision counter (`Spec`, `Meaning`), and that a
--   database whose inputs are all of low durability gives just that. `Invariant` says what every
--   slot holds between two calls: which revision its memo was verified in, since when its value
--   has not changed, and that its recorded inputs are what the query reads. `Contract` is what
--   `Calls` promise, one module for each part of src/derived/slot.rs proves that it keeps the
--   promise (`Program` and `Recompute` a run, `Inputs` and `Verify` a validation, `Refresh` and
--   `Read` a read, `Conclude` and `Since` `maybe_changed_since`), and `Answers` closes the circle
--   by induction on the fuel. `History`, `Advance`, `Writing` and `Garbage` carry the invariant
--   over writes and sweeps, `Session` over whole lists of operations.
-- - Tests: runs of the model, and the theorems at concrete inputs.
--
-- A query function is a `Program`: it reads queries through `QueryTable::get`, calls
-- `report_untracked_read` and then looks at the world outside, asks
-- `is_current_revision_canceled`, or panics. Keys are numbers, and a key names its query too.
-- Operations take the database and give an `Outcome`: a value and the database, a panic with the
-- database that it leaves once the guards on its way are dropped, or a wait for another runtime. A
-- guard that panics itself while a panic drops it aborts the process. The callback `salsa_event` is
-- taken to return.
--
-- Calls from slot to slot go through `Calls`. `calls config fuel` lets them nest at most `fuel`
-- deep; a run that needs more is `out_of_fuel`, which is no outcome of the crate. Where queries
-- have no cycles, each has a rank above that of the queries that it reads, and fuel above the rank
-- is enough. In `Runtime.Graph.walk` a step follows one edge, so fuel above the length of the chain
-- is enough.
--
-- Parameters, since they are the user's: the query functions, equality of values, which values are
-- memoized (all in `Config`, with the choice of a slot to evict), and `gen_range` of the crate
-- rand with its documented promise (`IsInRange` of `Lru/Promote`). The `debug_assert!` of
-- `add_edge`, that the runtime does not wait yet, is a hypothesis, since release builds leave it
-- out.
--
-- Not modelled: the locks of single slots, channels, and queries of several handles side by side,
-- so a read that meets a placeholder of another runtime stops where the code calls `try_block_on`,
-- which would wait or find a cycle; and the macros. An atomic counter of revisions is read as a
-- number, without the check of `Revision::from`, which fails only after a wrap-around. Memory does
-- not run out. Debug assertions and log lines are left out.
pub mod Base
pub mod Revision
pub mod Durability
pub mod Sweep
pub mod Key
pub mod Runtime
pub mod Derived
pub mod InternId
pub mod Interned
pub mod Database
pub mod Lru
pub mod Sound
pub mod Tests
