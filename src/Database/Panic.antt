-- ===== src/Database/Panic.antt =====
-- What a panic of a read leaves in its slot: the `PanicGuard` of src/derived/slot.rs.
use salsa.Base.Outcome.{Outcome}
use salsa.Revision.{Revision}
use salsa.Derived.Memo.{Memo}
use salsa.Runtime.Revisions
use salsa.Database.State.{Database}
use salsa.Database.Calls.{Calls}
