-- ===== src/Key.antt =====
-- The keys of a database, `DB::DatabaseKey`: the enum that the `database_storage` macro generates,
-- with a variant for each kind of query and a number for the key within it. A slot is made once
-- for a key and never replaced, so a key also stands for the address by which src/dependency.rs
-- compares slots.
use salsa.Base.{ℕ, ap, ℕ_discrete}

pub data DatabaseKey : Type 0 where
  input : ℕ → DatabaseKey
  derived : ℕ → DatabaseKey

unfoldable pub DatabaseKey-discrete : Discrete DatabaseKey
DatabaseKey-discrete (input a) (input b) = elim (ℕ_discrete a b) [
  | yes p ↦ yes (ap input p)
  | no p ↦ no (λ e. p (cc))
]
DatabaseKey-discrete (derived a) (derived b) = elim (ℕ_discrete a b) [
  | yes p ↦ yes (ap derived p)
  | no p ↦ no (λ e. p (cc))
]
DatabaseKey-discrete (input a) (derived b) = no (λ e. cc)
DatabaseKey-discrete (derived a) (input b) = no (λ e. cc)
