-- ===== src/Interned/Index.antt =====
-- `intern_index` of src/interned.rs on consistent tables.
use salsa.Base.{
  ◌⊎◌, inl, inr, ℕ, ◌<◌, ◌≡◌, refl, sym, ◌∙◌, ap, subst, inl, inr, Option, none, some, List, [],
  ◌∷◌, ◌++◌, if_pos, if_neg, ℕ_discrete, arith, length, get_elem?, set, get_elem?-set_self,
  get_elem?-set_ne, get_elem?-append, get_elem?-append_last, get_elem?-below, some-injective,
  set-get_elem?,
}
use salsa.Base.Outcome.{returns, M, and_then, ◌>>=◌, ◌>>◌, unwrap, modify, pure}
use salsa.Revision.{Revision}
use salsa.InternId.{InternId, max_id, as_usize, from_lem}
use salsa.Interned.{
  Slot, InternValue, present, Tables, find, intern_index, slot_for_index, create_slot, intern_found,
  place, next_free,
}
use salsa.Interned.Consistent.{
  Frees, last, more, Frees-set, IsConsistent, accessed-IsConsistent, slot_for_index-lem,
}

-- A new slot in the tables: the values that were present are still there.
record IsPlaced (t : Tables) (slot : Slot) (values : List InternValue) (first : Option InternId)
    : Type 0 where
  placed : get_elem? values (as_usize slot.index) ≡ some (present slot)
  kept :
      (j : ℕ) (s : Slot)
      → get_elem? t.values j ≡ some (present s)
      → get_elem? values j ≡ some (present s)
  frees : (ids : List ℕ) × Frees values first ids

module _ (t : Tables) (key : ℕ) (now : Revision) where
  place-lem :
      (first : Option InternId) (ids : List ℕ)
      → t.first_free ≡ first
      → Frees t.values first ids
      → length t.values < max_id
      → (id : InternId) × (values : List InternValue) × (next : Option InternId) × (place key now
            first t
          ≡ returns (create_slot key now id) (record t { values = values; first_free = next }))
        × IsPlaced t (create_slot key now id) values next
  unfolding place
  place-lem none [] f last room = elim (from_lem (length t.values)) [
    | inl (h, (id, a, e, r, b, c)) ↦ (
      id,
      t.values ++ present (create_slot key now id) ∷ [],
      t.first_free,
      ap (λ o. and_then (unwrap o t) push) e,
      record {
        placed =
            ap (get_elem? (t.values ++ present (create_slot key now id) ∷ [])) c
            ∙ get_elem?-append_last t.values (present (create_slot key now id));
        kept = λ j s g. get_elem?-append t.values (present (create_slot key now id)) j g;
        frees = (
          [],
          subst (λ o. Frees (t.values ++ present (create_slot key now id) ∷ []) o []) (sym f) last,
        );
      },
    )
    | inr (h, a, b) ↦ absurd (omega arith)
  ]
    where
      push : InternId → M Tables Slot
      push index = do
        modify (λ t'. record t' { values = t.values ++ present (create_slot key now index) ∷ [] })
        pure (create_slot key now index)
  place-lem (some _) (_ ∷ ids) f (more index next e n rest) room = (
    index,
    set t.values (as_usize index) (present (create_slot key now index)),
    next,
    ap (λ o. and_then (unwrap o t) reuse) e,
    record {
      placed =
          get_elem?-set_self t.values (as_usize index) _
            (get_elem?-below t.values (as_usize index) e);
      kept = λ i s g.
          get_elem?-set_ne t.values _ (λ same. cc (ap (get_elem? t.values) same, e, g)) ∙ g;
      frees = (ids, Frees-set (as_usize index) _ n rest);
    },
  )
    where
      reuse : InternValue → M Tables Slot
      reuse found = do
        next' ← next_free found
        modify (λ t'. record t' {
          values = set t.values (as_usize index) (present (create_slot key now index));
          first_free = next';
        })
        pure (create_slot key now index)
  place-lem none (_ ∷ ids) f frees room = elim frees [ ]
  place-lem (some _) [] f frees room = elim frees [ ]

  -- What interning a key makes of the tables.
  pub record IsInterned (slot : Slot) (t' : Tables) : Type 0 where
    pub consistent : IsConsistent t'
    pub of_key : slot.value ≡ key
    pub found : find key t'.map ≡ some slot.index
    pub kept : (k : ℕ) (id : InternId) → find k t.map ≡ some id → find k t'.map ≡ some id
    pub entries :
        (t'.map ≡ t.map) ⊎ ((find key t.map ≡ none) × (t'.map ≡ (key, slot.index) ∷ t.map))
    pub looked_up : slot_for_index slot.index now t' ≡ returns slot t'

  -- A look at a slot that was accessed in this revision changes nothing.
  looked_up_lem :
      (t' : Tables) (slot : Slot)
      → get_elem? t'.values (as_usize slot.index) ≡ some (present slot)
      → slot.accessed_at ≡ some now
      → slot_for_index slot.index now t' ≡ returns slot t'
  looked_up_lem t' slot e a =
      slot_for_index-lem t' slot.value slot.index slot now
        (record { placed = e; of_key = refl; at_index = refl; accessed = (now, a) })
      ∙ ap
          (λ o.
            returns (record slot { accessed_at = o })
              (record t' {
                values =
                    set t'.values (as_usize slot.index) (present (record slot { accessed_at = o }));
              }))
          (sym a)
      ∙ ap (λ vs. returns slot (record t' { values = vs }))
          (set-get_elem? t'.values (as_usize slot.index) e)

  old_key :
      (id : InternId)
      → IsConsistent t
      → find key t.map ≡ some id
      → (slot : Slot) × (t' : Tables) × (intern_found key now (some id) t ≡ returns slot t')
        × IsInterned slot t'
  unfolding intern_found
  old_key id c e =
      let (slot, at) = c.keyed key id e in
      let updated : Slot = record slot { accessed_at = some now } in
      let t' : Tables = record t { values = set t.values (as_usize id) (present updated) } in
      let in_place : get_elem? t'.values (as_usize slot.index) ≡ some (present updated) =
        ap (λ i. get_elem? t'.values (as_usize i)) at.at_index
        ∙ get_elem?-set_self t.values (as_usize id) (present updated)
            (get_elem?-below t.values (as_usize id) at.placed) in
      (
        updated,
        t',
        slot_for_index-lem t key id slot now at,
        record {
          consistent = accessed-IsConsistent t key id slot now c at;
          of_key = at.of_key;
          found = e ∙ ap some (sym at.at_index);
          kept = λ k i f. f;
          entries = inl refl;
          looked_up = looked_up_lem t' updated in_place refl;
        },
      )

  new_key :
      IsConsistent t
      → length t.values < max_id
      → find key t.map ≡ none
      → (slot : Slot) × (t' : Tables) × (intern_found key now none t ≡ returns slot t')
        × IsInterned slot t'
  unfolding intern_found find
  new_key c room e =
      let (ids, frees) = c.frees in
      let (id, values, next, run, p) = place-lem t.first_free ids refl frees room in
      let slot = create_slot key now id in
      let t' : Tables = record { map = (key, id) ∷ t.map; values = values; first_free = next } in
      (
        slot,
        t',
        ap (λ o. and_then o enter) run,
        record {
          consistent = record {
            keyed = λ k i f. elim (ℕ_discrete key k) [
              | yes same ↦
                  let is_id : id ≡ i =
                    some-injective (sym (if_pos (ℕ_discrete key k) same _ _) ∙ f) in
                  (
                    slot,
                    record {
                      placed = ap (λ x. get_elem? values (as_usize x)) (sym is_id) ∙ p.placed;
                      of_key = same;
                      at_index = is_id;
                      accessed = (now, refl);
                    },
                  )
              | no other ↦
                  let (old, o) = c.keyed k i (sym (if_neg (ℕ_discrete key k) other _ _) ∙ f) in
                  (
                    old,
                    record {
                      placed = p.kept (as_usize i) old o.placed;
                      of_key = o.of_key;
                      at_index = o.at_index;
                      accessed = o.accessed;
                    },
                  )
            ];
            frees = p.frees;
          };
          of_key = refl;
          found = if_pos (ℕ_discrete key key) refl _ _;
          kept =
              λ k i f. if_neg (ℕ_discrete key k) (λ s. cc (ap (λ x. find x t.map) s, e, f)) _ _ ∙ f;
          entries = inr (e, refl);
          looked_up = looked_up_lem t' slot p.placed refl;
        },
      )
    where
      enter : Slot → M Tables Slot
      enter s = do modify (λ t'. record t' { map = (key, s.index) ∷ t'.map }); pure s

  -- Interning a key in consistent tables that are not full returns its slot. The tables stay
  -- consistent, the key maps to the index of the slot, keys that were interned keep their indices,
  -- a new key has the only new entry, and looking the index up gives the same slot.
  pub intern_index-IsInterned :
      IsConsistent t
      → length t.values < max_id
      → (slot : Slot) × (t' : Tables) × (intern_index key now t ≡ returns slot t')
        × IsInterned slot t'
  unfolding intern_index
  intern_index-IsInterned c room = go (find key t.map) refl
    where
      go :
          (o : Option InternId)
          → find key t.map ≡ o
          → (slot : Slot) × (t' : Tables) × (intern_index key now t ≡ returns slot t')
            × IsInterned slot t'
      go none e =
          let (slot, t', run, i) = new_key c room e in
          (slot, t', ap (λ o. intern_found key now o t) e ∙ run, i)
      go (some id) e =
          let (slot, t', run, i) = old_key id c e in
          (slot, t', ap (λ o. intern_found key now o t) e ∙ run, i)
