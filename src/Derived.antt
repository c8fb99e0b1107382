-- ===== src/Derived.antt =====
-- src/derived.rs and src/derived/slot.rs: memoized queries.
pub mod Memo
pub mod Slot
