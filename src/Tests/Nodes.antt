-- ===== src/Tests/Nodes.antt =====
-- The theorems on src/lru.rs and src/intern_id.rs at concrete inputs.
use salsa.Base.{
  ℕ, zero, suc, ◌+◌, ◌≤◌, ◌<◌, ◌≡◌, refl, sym, ◌∙◌, ap, ◌⊎◌, inl, inr, Option, none, some, [], ◌∷◌,
  ltb, if◌then◌else◌, ite, if_neg, ℕ_discrete, arith, get_elem?, some-injective,
}
use salsa.Base.Outcome.{returns}
use salsa.Lru.{Lru, usize_max, record_use, set_lru_capacity}
use salsa.Lru.Index.{IsIndexed, IsZoned}
use salsa.Lru.Promote.{IsInRange}
use salsa.Lru.Displace.{IsUsed}
use salsa.Lru.Use
use salsa.Lru.Capacity
use salsa.Lru.Capacity.{Resized}
use salsa.InternId.{
  InternId, max_id, from_u32, from_usize, as_u32, as_usize, from_lem, from_u32-as_u32,
  IsInRange as IsId,
}

-- A generator that counts its calls and always picks the first index.
abbrev pick_first : ℕ → ℕ → ℕ → Option (ℕ × ℕ)
pick_first first last rng = if ltb first last then some (first, rng + 1) else none

pick_first-IsInRange : IsInRange pick_first
pick_first-IsInRange first last rng h = (first, rng + 1, ground arith, omega arith, h)

-- The nodes 10, 11 and 12 fill the three zones.
abbrev full : Lru ℕ
full = record {
  green_zone = 1;
  end_red_zone = 3;
  end_yellow_zone = 2;
  end_green_zone = 1;
  rng = 0;
  entries = 10 ∷ 11 ∷ 12 ∷ [];
  index =
      λ x. ite (ℕ_discrete x 10) 0 (ite (ℕ_discrete x 11) 1 (ite (ℕ_discrete x 12) 2 usize_max));
}

full-points : (i x : ℕ) → get_elem? full.entries i ≡ some x → full.index x ≡ i
unfolding ℕ_discrete
full-points zero x e = ap full.index (sym (some-injective e))
full-points (suc zero) x e = ap full.index (sym (some-injective e))
full-points (suc (suc zero)) x e = ap full.index (sym (some-injective e))
full-points (suc (suc (suc i))) x e = cc

full-finds : (x : ℕ) → (full.index x ≡ usize_max) ⊎ (get_elem? full.entries (full.index x) ≡ some x)
unfolding ℕ_discrete
full-finds x = elim (ℕ_discrete x 10) [
  | yes e ↦ inr (ap (λ t. get_elem? full.entries (full.index t)) e ∙ ap some (sym e))
  | no n ↦ (elim (ℕ_discrete x 11) [
    | yes e ↦ inr (ap (λ t. get_elem? full.entries (full.index t)) e ∙ ap some (sym e))
    | no m ↦ (elim (ℕ_discrete x 12) [
      | yes e ↦ inr (ap (λ t. get_elem? full.entries (full.index t)) e ∙ ap some (sym e))
      | no o ↦ inl (
          if_neg (ℕ_discrete x 10) n _ _
          ∙ if_neg (ℕ_discrete x 11) m _ _
          ∙ if_neg (ℕ_discrete x 12) o _ _)
    ])
  ])
]

full-IsIndexed : IsIndexed full
full-IsIndexed = record { points = full-points; finds = full-finds }

full-IsZoned : IsZoned full
full-IsZoned = record {
  quick = refl;
  green = omega arith;
  yellow = omega arith;
  red = omega arith;
  bounded = omega arith;
  fits = omega arith;
}

-- A new node takes the place of the node 12.
record_use-IsUsed_example :
    (victim : Option ℕ) × (lru' : Lru ℕ) × (record_use pick_first 2 20 full ≡ returns victim lru')
    × IsUsed 20 full victim lru'
record_use-IsUsed_example =
    Use.record_use-IsUsed pick_first pick_first-IsInRange 0 full 20 full-IsIndexed full-IsZoned

set_lru_capacity-IsResized_example : Resized 40 full (set_lru_capacity 40 full)
set_lru_capacity-IsResized_example =
    Capacity.set_lru_capacity-IsResized 40 full full-IsIndexed (omega arith)

from_lem_example :
    ((22 < max_id)
      × ((id : InternId) × (from_u32 22 ≡ some id)
          × (from_usize 22 ≡ some id)
          × IsId id
          × (as_u32 id ≡ 22)
          × (as_usize id ≡ 22)))
    ⊎ ((max_id ≤ 22) × (from_u32 22 ≡ none) × (from_usize 22 ≡ none))
from_lem_example = from_lem 22

from_u32-as_u32_example : from_u32 (as_u32 (record { value = 23 })) ≡ some (record { value = 23 })
from_u32-as_u32_example =
    from_u32-as_u32 (record { value = 23 })
      (record { positive = omega arith; bounded = omega arith })
