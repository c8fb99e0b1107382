-- ===== src/Durability.antt =====
-- src/durability.rs: how likely a value is to change.
use salsa.Base.{ℕ}

-- `Durability(u8)`. The field is private, and only the constants below are ever made.
abbrev pub Durability : Type 0
Durability = ℕ

abbrev pub low : Durability
low = 0

abbrev pub medium : Durability
medium = 1

abbrev pub high : Durability
high = 2

-- `Durability::MAX`.
abbrev pub max_durability : Durability
max_durability = high

-- `Durability::LEN`.
abbrev pub len : ℕ
len = 3

-- `Durability::index`.
abbrev pub index : Durability → ℕ
index d = d
