-- ===== src/Database/Calls.antt =====
-- The two entries by which code on a slot reaches other slots. The fuel bounds how deep the calls
-- nest.
use salsa.Base.{Bool}
use salsa.Base.Outcome.{M}
use salsa.Revision.{Revision}
use salsa.Key.{DatabaseKey}
use salsa.Database.State.{Database}

-- `QueryTable::get` of src/lib.rs, and `DatabaseSlot::maybe_changed_since` of src/dependency.rs.
pub record Calls (V L : Type 0) : Type 0 where
  pub get : DatabaseKey → M (Database V L) V
  pub maybe_changed_since : DatabaseKey → Revision → M (Database V L) Bool
