-- ===== src/Interned/Consistent.antt =====
-- Consistent tables of src/interned.rs, and the access to a slot in them.
use salsa.Base.{
  ℕ, ◌≡◌, ◌≢◌, refl, sym, ◌∙◌, ap, Option, none, some, List, [], ◌∷◌, ℕ_discrete, get_elem?, set,
  get_elem?-set_self, get_elem?-set_ne, get_elem?-below, some-injective,
}
use salsa.Base.Outcome.{returns, M, and_then, ◌>>◌, unwrap, modify, pure}
use salsa.Revision.{Revision}
use salsa.InternId.{InternId, as_usize}
use salsa.Interned.{
  Slot, InternValue, present, free, Tables, find, slot_for_index, access, try_update_accessed_at,
}

abbrev pub NotIn : ℕ → List ℕ → Type 0
NotIn j [] = Unit {0}
NotIn j (x ∷ xs) = (j ≢ x) × NotIn j xs

-- The free list: distinct indices of free values, each with the next one.
pub data Frees (values : List InternValue) : Option InternId → List ℕ → Type 0 where
  last : Frees values none []
  more :
      {ids : List ℕ} (id : InternId) (next : Option InternId)
      → get_elem? values (as_usize id) ≡ some (free next)
      → NotIn (as_usize id) ids
      → Frees values next ids
      → Frees values (some id) (as_usize id ∷ ids)

-- No key stands twice in the map.
abbrev pub IsUnique : List (ℕ × InternId) → Type 0
IsUnique [] = Unit {0}
IsUnique ((key, id) ∷ map) = (find key map ≡ none) × IsUnique map

-- The slot of a key, at its index and not collected.
pub record IsSlotOf (t : Tables) (key : ℕ) (id : InternId) (slot : Slot) : Type 0 where
  pub placed : get_elem? t.values (as_usize id) ≡ some (present slot)
  pub of_key : slot.value ≡ key
  pub at_index : slot.index ≡ id
  pub accessed : (r : Revision) × (slot.accessed_at ≡ some r)

pub record IsConsistent (t : Tables) : Type 0 where
  pub keyed :
      (key : ℕ) (id : InternId) → find key t.map ≡ some id → (slot : Slot) × IsSlotOf t key id slot
  pub frees : (ids : List ℕ) × Frees t.values t.first_free ids

pub present-NotIn :
    {values : List InternValue} {first : Option InternId} {ids : List ℕ} (j : ℕ) {slot : Slot}
    → get_elem? values j ≡ some (present slot)
    → Frees values first ids
    → NotIn j ids
present-NotIn j e last = tt
present-NotIn {values} j e (more id next f n rest) =
    (λ s. cc (ap (get_elem? values) s, e, f), present-NotIn j e rest)

pub Frees-set :
    {values : List InternValue} {first : Option InternId} {ids : List ℕ} (j : ℕ) (v : InternValue)
    → NotIn j ids
    → Frees values first ids
    → Frees (set values j v) first ids
Frees-set j v m last = last
Frees-set {values} j v m (more id next f n rest) =
    more id next (get_elem?-set_ne values v m.0 ∙ f) n (Frees-set j v m.1 rest)

-- Another slot for a key at the index that holds its slot.
pub accessed-IsConsistent :
    (t : Tables) (key : ℕ) (id : InternId) (slot : Slot) (now : Revision)
    → IsConsistent t
    → IsSlotOf t key id slot
    → IsConsistent (record t {
      values = set t.values (as_usize id) (present (record slot { accessed_at = some now }));
    })
accessed-IsConsistent t key id slot now c at = record {
  keyed = λ k i e.
      let (old, o) = c.keyed k i e in
      elim (ℕ_discrete (as_usize i) (as_usize id)) [
        | yes same ↦
            let is_old : old ≡ slot =
              present-injective
                (some-injective (sym o.placed ∙ ap (get_elem? t.values) same ∙ at.placed)) in
            (
              record slot { accessed_at = some now },
              record {
                placed =
                    ap
                      (get_elem? (
                        set t.values (as_usize id)
                          (present (record slot { accessed_at = some now }))))
                      same
                    ∙ get_elem?-set_self t.values (as_usize id) _
                        (get_elem?-below t.values (as_usize id) at.placed);
                of_key = ap (λ (s : Slot). s.value) (sym is_old) ∙ o.of_key;
                at_index = ap (λ (s : Slot). s.index) (sym is_old) ∙ o.at_index;
                accessed = (now, refl);
              },
            )
        | no other ↦ (
          old,
          record {
            placed = get_elem?-set_ne t.values _ (λ s. other (sym s)) ∙ o.placed;
            of_key = o.of_key;
            at_index = o.at_index;
            accessed = o.accessed;
          },
        )
      ];
  frees = (
    c.frees.0,
    Frees-set (as_usize id) _ (present-NotIn (as_usize id) at.placed c.frees.1) c.frees.1,
  );
}
  where
    present-injective : {a b : Slot} → present a ≡ present b → a ≡ b
    present-injective e = cc

-- An access to a slot in the tables: it is marked as accessed now, and is there afterwards.
pub slot_for_index-lem :
    (t : Tables) (key : ℕ) (id : InternId) (slot : Slot) (now : Revision)
    → IsSlotOf t key id slot
    → slot_for_index id now t
      ≡ returns
          (record slot { accessed_at = some now })
          (record t {
            values = set t.values (as_usize id) (present (record slot { accessed_at = some now }));
          })
unfolding slot_for_index
slot_for_index-lem t key id slot now at =
    let (r, a) = at.accessed in
    let updated : try_update_accessed_at now slot ≡ some (record slot { accessed_at = some now }) =
      rw (a, try_update_accessed_at) in
    ap (λ v. and_then (unwrap v t) (access id now)) at.placed
    ∙ ap (λ u. and_then (unwrap u t) store_slot) updated
  where
    store_slot : Slot → M Tables Slot
    store_slot updated = do
      modify (λ t'. record t' { values = set t'.values (as_usize id) (present updated) })
      pure updated
