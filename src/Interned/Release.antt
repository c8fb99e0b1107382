-- ===== src/Interned/Release.antt =====
-- One key of the sweep of src/interned.rs: `try_collect`, and its index on the free list.
use salsa.Base.{
  ℕ, ◌≡◌, ◌≢◌, refl, sym, ◌∙◌, ap, Bool, true, false, Option, none, some, List, [], ◌∷◌, ltb,
  if◌then◌else◌, if_pos, if_neg, ℕ_discrete, get_elem?, set, get_elem?-set_self, get_elem?-set_ne,
  get_elem?-below, some-injective,
}
use salsa.Base.Outcome.{Outcome, returns, and_then, ◌>>◌, unwrap, pure}
use salsa.Revision.{Revision}
use salsa.Sweep.{DiscardIf, never, outdated, always}
use salsa.InternId.{InternId, as_usize}
use salsa.Interned.{Slot, InternValue, present, free, Tables, find}
use salsa.Interned.Consistent.{Frees, more, IsSlotOf, present-NotIn, Frees-set}
use salsa.Interned.Sweep.{try_collect, release, retain_value, retain_key}

-- Every entry of a map has its slot, and no key stands twice.
abbrev pub Owned : Tables → List (ℕ × InternId) → Type 0
Owned t [] = Unit {0}
Owned t ((key, id) ∷ map) =
    ((slot : Slot) × IsSlotOf t key id slot) × (find key map ≡ none) × Owned t map

-- The tables with an index in the free list.
abbrev pub released : InternId → Tables → Tables
released id t = record t {
  values = set t.values (as_usize id) (free t.first_free);
  first_free = some id;
}

pub present-injective : {a b : Slot} → present a ≡ present b → a ≡ b
present-injective e = cc

-- The slots of two keys have different indices.
distinct-indices :
    (t : Tables) (key key' : ℕ) (id id' : InternId) (slot slot' : Slot)
    → IsSlotOf t key id slot
    → IsSlotOf t key' id' slot'
    → key ≢ key'
    → as_usize id ≢ as_usize id'
distinct-indices t key key' id id' slot slot' a b ne e =
    let same : slot ≡ slot' =
      present-injective (some-injective (sym a.placed ∙ ap (get_elem? t.values) e ∙ b.placed)) in
    ne (sym a.of_key ∙ ap (λ (s : Slot). s.value) same ∙ b.of_key)

-- The slots of other keys stay where they are.
pub released-IsSlotOf :
    (t : Tables) (key key' : ℕ) (id id' : InternId) (slot slot' : Slot)
    → IsSlotOf t key id slot
    → IsSlotOf t key' id' slot'
    → key ≢ key'
    → IsSlotOf (released id t) key' id' slot'
released-IsSlotOf t key key' id id' slot slot' a b ne = record {
  placed =
      get_elem?-set_ne t.values (free t.first_free)
        (distinct-indices t key key' id id' slot slot' a b ne)
      ∙ b.placed;
  of_key = b.of_key;
  at_index = b.at_index;
  accessed = b.accessed;
}

pub released-Owned :
    (t : Tables) (key : ℕ) (id : InternId) (slot : Slot)
    → IsSlotOf t key id slot
    → (map : List (ℕ × InternId)) → find key map ≡ none
    → Owned t map
    → Owned (released id t) map
unfolding find
released-Owned t key id slot a [] e o = tt
released-Owned t key id slot a ((key', id') ∷ map) e o = elim (ℕ_discrete key' key) [
  | yes same ↦ cc (sym (if_pos (ℕ_discrete key' key) same _ _) ∙ e)
  | no other ↦ (
    (o.0.0, released-IsSlotOf t key key' id id' slot o.0.0 a o.0.1 (λ s. other (sym s))),
    o.1,
    released-Owned t key id slot a map (sym (if_neg (ℕ_discrete key' key) other _ _) ∙ e) o.2,
  )
]

pub released-Frees :
    (t : Tables) (key : ℕ) (id : InternId) (slot : Slot) (ids : List ℕ)
    → IsSlotOf t key id slot
    → Frees t.values t.first_free ids
    → Frees (released id t).values (some id) (as_usize id ∷ ids)
released-Frees t key id slot ids a frees =
    let outside = present-NotIn (as_usize id) a.placed frees in
    more id t.first_free
      (get_elem?-set_self t.values (as_usize id) _
        (get_elem?-below t.values (as_usize id) a.placed))
      outside (Frees-set (as_usize id) (free t.first_free) outside frees)

-- The verdict on one key.
abbrev verdict : Revision → Revision → InternId → Tables → Outcome Tables Bool
verdict accessed last_changed id t =
    if ltb accessed last_changed then returns false (released id t) else returns true t

try_collect-at :
    (last_changed : Revision) (slot : Slot) (r : Revision)
    → slot.accessed_at ≡ some r
    → try_collect last_changed slot
      ≡ some
          (if ltb r last_changed then (true, record slot { accessed_at = none }) else (false, slot))
unfolding try_collect
try_collect-at last_changed slot r e = ap trying e
  where
    trying : Option Revision → Option (Bool × Slot)
    trying o = elim o [
      | none ↦ none
      | some a ↦
          some (
            if ltb a last_changed
            then (true, record slot { accessed_at = none })
            else (false, slot))
    ]

pub retain_key-verdict :
    (d : DiscardIf) (last_changed : Revision) (t : Tables) (key : ℕ) (id : InternId) (slot : Slot)
    (r : Revision)
    → d ≢ never
    → IsSlotOf t key id slot
    → slot.accessed_at ≡ some r
    → retain_key d last_changed id t ≡ verdict r last_changed id t
unfolding retain_key retain_value release
retain_key-verdict d last_changed t key id slot r ne at accessed = go d ne
  where
    collecting : Option (Bool × Slot) → Outcome Tables Bool
    collecting tried =
        and_then (unwrap tried t) (λ c. if c.0 then (do release id; pure false) else pure true)

    collected : Bool → Outcome Tables Bool
    collected b =
        collecting (some (if b then (true, record slot { accessed_at = none }) else (false, slot)))

    judged :
        (b : Bool) → collected b ≡ (if b then returns false (released id t) else returns true t)
    judged true = refl
    judged false = refl

    checking : Option InternValue → Outcome Tables Bool
    checking v = and_then (unwrap v t) (retain_value last_changed id)

    checked : checking (get_elem? t.values (as_usize id)) ≡ verdict r last_changed id t
    checked =
        ap checking at.placed
        ∙ ap collecting (try_collect-at last_changed slot r accessed)
        ∙ judged (ltb r last_changed)

    go : (d : DiscardIf) → d ≢ never → retain_key d last_changed id t ≡ verdict r last_changed id t
    go never n = absurd (n refl)
    go outdated n = checked
    go always n = checked
