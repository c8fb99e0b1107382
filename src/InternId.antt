-- ===== src/InternId.antt =====
-- `InternId` of src/intern_id.rs: a 32-bit number that is stored plus one.
use salsa.Base.{
  ℕ, ◌+◌, ◌-◌, ◌%◌, ◌^◌, ◌≤◌, ◌<◌, ◌≡◌, ◌⊎◌, inl, inr, Option, none, some, ltb, if◌then◌else◌,
  dec_lt, arith,
}

-- The field is a `NonZeroU32`.
pub record InternId : Type 0 where
  pub value : ℕ

abbrev u32_mod : ℕ
u32_mod = 2 ^ 32

-- `InternId::MAX`, 0xFFFF_FF00.
abbrev pub max_id : ℕ
max_id = 4294967040

-- `new_unchecked`; the sum wraps as in a release build.
unfoldable pub new_unchecked : ℕ → InternId
new_unchecked value = record { value = (value + 1) % u32_mod }

unfoldable pub as_u32 : InternId → ℕ
as_u32 id = id.value - 1

unfoldable pub as_usize : InternId → ℕ
unfolding as_u32
as_usize id = as_u32 id

-- `From<u32>`; `none` is the panic of its `assert!`.
unfoldable pub from_u32 : ℕ → Option InternId
unfolding new_unchecked
from_u32 id = if ltb id max_id then some (new_unchecked id) else none

-- `From<usize>`, with its cast to 32 bits.
unfoldable pub from_usize : ℕ → Option InternId
unfolding new_unchecked
from_usize id = if ltb id max_id then some (new_unchecked (id % u32_mod)) else none

-- What the safe constructors make.
pub record IsInRange (id : InternId) : Type 0 where
  pub positive : 1 ≤ id.value
  pub bounded : id.value ≤ max_id

-- Numbers below `MAX`, and no others, give an identifier, the same one from both types. It is in
-- range, and gives the number back as both types.
pub from_lem :
    (v : ℕ)
    → ((v < max_id)
        × ((id : InternId) × (from_u32 v ≡ some id)
            × (from_usize v ≡ some id)
            × IsInRange id
            × (as_u32 id ≡ v)
            × (as_usize id ≡ v)))
      ⊎ ((max_id ≤ v) × (from_u32 v ≡ none) × (from_usize v ≡ none))
unfolding from_u32 from_usize as_usize
from_lem v = elim (dec_lt v max_id) [
  | yes h ↦
      let e : (v + 1) % u32_mod ≡ v + 1 = omega arith in
      let c : v % u32_mod ≡ v = omega arith in
      inl (
        h,
        (
          new_unchecked v,
          ground arith,
          ground (arith, c),
          record { positive = omega (arith, e); bounded = omega (arith, e) },
          omega (arith, e),
          omega (arith, e),
        ),
      )
  | no n ↦ inr (omega arith, ground arith, ground arith)
]

-- An identifier in range is the one that its number gives.
pub from_u32-as_u32 : (id : InternId) → IsInRange id → from_u32 (as_u32 id) ≡ some id
unfolding from_u32 as_u32
from_u32-as_u32 id r =
    let e : (id.value - 1 + 1) % u32_mod ≡ id.value = omega (arith, r.positive, r.bounded) in
    ground (arith, r.positive, r.bounded, e)
