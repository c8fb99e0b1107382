-- ===== src/Database/Program.antt =====
-- What the crate takes from its user: query functions, equality of values, which values are kept,
-- and from src/lru.rs the choice of a slot to evict.
use salsa.Base.{ℕ, Bool, Option}
use salsa.Key.{DatabaseKey}

-- `Q::execute(db, key)`: code that reaches the database by reading queries, by
-- `report_untracked_read` with a look at the world outside, and by `is_current_revision_canceled`.
-- It may panic.
pub data Program (V : Type 0) : Type 0 where
  done : V → Program V
  fetch : DatabaseKey → (V → Program V) → Program V
  read_untracked : (V → Program V) → Program V
  check_canceled : (Bool → Program V) → Program V
  crash : Program V

pub record Config (V L : Type 0) : Type 0 where
  pub execute : ℕ → Program V
  pub value_eq : V → V → Bool
  pub should_memoize_value : ℕ → Bool
  pub record_use : ℕ → L → Option ℕ × L
