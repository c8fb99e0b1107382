-- ===== src/Interned/Collect.antt =====
-- What a sweep of the interned keys of src/interned.rs takes away.
use salsa.Base.{
  ℕ, ◌≤◌, ◌<◌, ◌≡◌, ◌≢◌, refl, sym, ◌∙◌, ap, subst, none, some, List, [], ◌∷◌, if_pos, if_neg,
  ℕ_discrete, some-injective,
}
use salsa.Base.Outcome.{returns, M, and_then, modify}
use salsa.Revision.{Revision}
use salsa.Sweep.{SweepStrategy, never}
use salsa.InternId.{InternId}
use salsa.Interned.{Slot, Tables, find}
use salsa.Interned.Consistent.{IsSlotOf, IsConsistent, IsUnique}
use salsa.Interned.Sweep.{sweep_interned}
use salsa.Interned.Release.{Owned}
use salsa.Interned.Retain.{retain-Retained}

Owned-of :
    (t : Tables) (map : List (ℕ × InternId))
    → ((key : ℕ) (id : InternId) → find key map ≡ some id → (slot : Slot) × IsSlotOf t key id slot)
    → IsUnique map
    → Owned t map
unfolding find
Owned-of t [] keyed unique = tt
Owned-of t ((key, id) ∷ map) keyed unique = (
  keyed key id (if_pos (ℕ_discrete key key) refl _ _),
  unique.0,
  Owned-of t map (λ k i e. keyed k i (later k i e)) unique.1,
)
  where
    later : (k : ℕ) (i : InternId) → find k map ≡ some i → find k ((key, id) ∷ map) ≡ some i
    later k i e = elim (ℕ_discrete key k) [
      | yes same ↦ cc (ap (λ q. find q map) same, unique.0, e)
      | no other ↦ if_neg (ℕ_discrete key k) other _ _ ∙ e
    ]

keyed-of :
    (t : Tables) (map : List (ℕ × InternId))
    → Owned t map
    → (key : ℕ) (id : InternId) → find key map ≡ some id
    → (slot : Slot) × IsSlotOf t key id slot
unfolding find
keyed-of t [] o key id e = cc
keyed-of t ((k, i) ∷ map) o key id e = elim (ℕ_discrete k key) [
  | yes same ↦
      let f : i ≡ id = some-injective (sym (if_pos (ℕ_discrete k key) same _ _) ∙ e) in
      (o.0.0, subst (λ q. IsSlotOf t q id o.0.0) same (subst (λ q. IsSlotOf t k q o.0.0) f o.0.1))
  | no other ↦ keyed-of t map o.2 key id (sym (if_neg (ℕ_discrete k key) other _ _) ∙ e)
]

IsUnique-of : (t : Tables) (map : List (ℕ × InternId)) → Owned t map → IsUnique map
IsUnique-of t [] o = tt
IsUnique-of t ((key, id) ∷ map) o = (o.1, IsUnique-of t map o.2)

-- The tables after a sweep that discards.
pub record IsCollected (last_changed : Revision) (t t' : Tables) : Type 0 where
  pub consistent : IsConsistent t'
  pub unique : IsUnique t'.map
  pub stays :
      (key : ℕ) (id : InternId) (slot : Slot) (r : Revision)
      → find key t.map ≡ some id
      → IsSlotOf t key id slot
      → slot.accessed_at ≡ some r
      → last_changed ≤ r
      → (find key t'.map ≡ some id) × IsSlotOf t' key id slot
  pub goes :
      (key : ℕ) (id : InternId) (slot : Slot) (r : Revision)
      → find key t.map ≡ some id
      → IsSlotOf t key id slot
      → slot.accessed_at ≡ some r
      → r < last_changed
      → find key t'.map ≡ none

-- A sweep of consistent tables in which no key stands twice, by a strategy that discards at all,
-- does not panic. The tables stay consistent, and no key stands twice. A key whose slot was
-- accessed since the last change of its durability keeps its index and its slot, and each other
-- key is gone.
pub sweep_interned-IsCollected :
    (strategy : SweepStrategy) (last_changed : Revision) (t : Tables)
    → strategy.discard_if ≢ never
    → IsConsistent t
    → IsUnique t.map
    → (t' : Tables) × (sweep_interned strategy last_changed t ≡ returns tt t')
      × IsCollected last_changed t t'
unfolding sweep_interned
sweep_interned-IsCollected strategy last_changed t ne c unique =
    let (t', kept, run, R) =
      retain-Retained strategy.discard_if last_changed ne t.map t (Owned-of t t.map c.keyed unique)
        c.frees.0 c.frees.1 in
    (
      record t' { map = kept },
      ap (λ x. and_then x keeping) run,
      record {
        consistent = record {
          keyed = λ key id e.
              let (slot, at) = keyed-of t' kept R.owned key id e in (slot, moved t' kept at);
          frees = R.frees;
        };
        unique = IsUnique-of t' kept R.owned;
        stays = λ key id slot r e at accessed le.
            let (found, at') = R.stays key id slot r e at accessed le in (found, moved t' kept at');
        goes = R.goes;
      },
    )
  where
    keeping : List (ℕ × InternId) → M Tables (Unit {0})
    keeping kept = modify (λ s. record s { map = kept })

    moved :
        (t' : Tables) (kept : List (ℕ × InternId)) {key : ℕ} {id : InternId} {slot : Slot}
        → IsSlotOf t' key id slot
        → IsSlotOf (record t' { map = kept }) key id slot
    moved t' kept at = record {
      placed = at.placed;
      of_key = at.of_key;
      at_index = at.at_index;
      accessed = at.accessed;
    }
