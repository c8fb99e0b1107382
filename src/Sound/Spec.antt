-- ===== src/Sound/Spec.antt =====
-- What a query means, with no memo and no revision counter.
use salsa.Base.{ℕ, ◌<◌, false, Option, none, some, min}
use salsa.Revision.{Revision}
use salsa.Durability.{Durability, low}
use salsa.Key.{DatabaseKey, input, derived}
use salsa.Database.Program.{Program, done, fetch, read_untracked, check_canceled, crash, Config}

-- A value, and the least durability of all that it was made from.
pub record Answer (V : Type 0) : Type 0 where
  pub value : V
  pub durability : Durability

-- The derived queries that a program reads have a rank below `n`.
abbrev pub KeyBelow : (ℕ → ℕ) → ℕ → DatabaseKey → Type 0
KeyBelow rank n (input i) = Unit {0}
KeyBelow rank n (derived k) = rank k < n

module _ {V : Type 0} where
  -- A program on a function that answers its reads; `none` is a panic. No revision is canceled.
  abbrev pub interp :
      (DatabaseKey → Option (Answer V)) → V → Durability → Program V → Option (Answer V)
  interp o w d (done v) = some (record { value = v; durability = d })
  interp o w d (fetch key k) = elim (o key) [
    | none ↦ none
    | some a ↦ interp o w (min d a.durability) (k a.value)
  ]
  interp o w d (read_untracked k) = interp o w low (k w)
  interp o w d (check_canceled k) = interp o w d (k false)
  interp o w d crash = none

  abbrev pub Below : (ℕ → ℕ) → ℕ → Program V → Type 0
  Below rank n (done v) = Unit {0}
  Below rank n (fetch key k) = KeyBelow rank n key × ((v : V) → Below rank n (k v))
  Below rank n (read_untracked k) = (v : V) → Below rank n (k v)
  Below rank n (check_canceled k) = Below rank n (k false)
  Below rank n crash = Unit {0}

-- One revision of a database: the query functions, what every key means in each revision so far,
-- and which derived queries were verified in each revision before this one.
pub record Setting (V L : Type 0) : Type 1 where
  pub config : Config V L
  pub rank : ℕ → ℕ
  pub now : Revision
  pub den : Revision → DatabaseKey → Option (Answer V)
  pub world : Revision → V
  pub past : Revision → ℕ → Type 0
  pub me : ℕ
  pub mark_medium : Revision
  pub mark_high : Revision
