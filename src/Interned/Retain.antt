-- ===== src/Interned/Retain.antt =====
-- The loop of the sweep of src/interned.rs over the map.
use salsa.Base.{
  ℕ, ◌≤◌, ◌<◌, ◌≡◌, ◌≢◌, refl, sym, ◌∙◌, ap, subst, Bool, true, false, none, some, List, [], ◌∷◌,
  arith, ltb, if◌then◌else◌, if_pos, if_neg, ℕ_discrete, dec_lt, get_elem?, some-injective,
}
use salsa.Base.Outcome.{Outcome, returns, M, and_then, ◌>>=◌, pure}
use salsa.Revision.{Revision}
use salsa.Sweep.{DiscardIf, never}
use salsa.InternId.{InternId, as_usize}
use salsa.Interned.{Slot, Tables, find}
use salsa.Interned.Consistent.{Frees, IsSlotOf}
use salsa.Interned.Sweep.{retain}
use salsa.Interned.Release.{
  Owned, released, present-injective, released-IsSlotOf, released-Owned, released-Frees,
  retain_key-verdict,
}

-- What the loop over a map leads to: `kept` are the entries that stay.
pub record Retained (last_changed : Revision) (t : Tables) (map : List (ℕ × InternId)) (t' : Tables)
    (kept : List (ℕ × InternId)) : Type 0 where
  pub same_map : t'.map ≡ t.map
  pub owned : Owned t' kept
  pub frees : (ids : List ℕ) × Frees t'.values t'.first_free ids
  pub others :
      (key : ℕ) (id : InternId) (slot : Slot)
      → find key map ≡ none
      → IsSlotOf t key id slot
      → IsSlotOf t' key id slot
  pub absent : (key : ℕ) → find key map ≡ none → find key kept ≡ none
  pub stays :
      (key : ℕ) (id : InternId) (slot : Slot) (r : Revision)
      → find key map ≡ some id
      → IsSlotOf t key id slot
      → slot.accessed_at ≡ some r
      → last_changed ≤ r
      → (find key kept ≡ some id) × IsSlotOf t' key id slot
  pub goes :
      (key : ℕ) (id : InternId) (slot : Slot) (r : Revision)
      → find key map ≡ some id
      → IsSlotOf t key id slot
      → slot.accessed_at ≡ some r
      → r < last_changed
      → find key kept ≡ none

-- At one index there is one slot, with one time of access.
same_access :
    (t : Tables) (key key' : ℕ) (id id' : InternId) (slot slot' : Slot) (r r' : Revision)
    → IsSlotOf t key id slot
    → IsSlotOf t key' id' slot'
    → slot.accessed_at ≡ some r
    → slot'.accessed_at ≡ some r'
    → id ≡ id'
    → r ≡ r'
same_access t key key' id id' slot slot' r r' at at' accessed accessed' f =
    let same : slot ≡ slot' =
      present-injective (
        some-injective
          (sym at.placed ∙ ap (λ q. get_elem? t.values (as_usize q)) f ∙ at'.placed)) in
    some-injective (sym accessed ∙ ap (λ (s : Slot). s.accessed_at) same ∙ accessed')

-- The first entry stays.
Retained-first :
    (last_changed : Revision) (t : Tables) (key : ℕ) (id : InternId) (slot : Slot) (r : Revision)
    (map : List (ℕ × InternId)) (t' : Tables) (kept : List (ℕ × InternId))
    → find key map ≡ none
    → IsSlotOf t key id slot
    → slot.accessed_at ≡ some r
    → last_changed ≤ r
    → Retained last_changed t map t' kept
    → Retained last_changed t ((key, id) ∷ map) t' ((key, id) ∷ kept)
unfolding find
Retained-first last_changed t key id slot r map t' kept once at accessed le R = record {
  same_map = R.same_map;
  owned = ((slot, R.others key id slot once at), R.absent key once, R.owned);
  frees = R.frees;
  others = λ key' id' slot' e at'. elim (ℕ_discrete key key') [
    | yes same ↦ cc (sym (if_pos (ℕ_discrete key key') same _ _) ∙ e)
    | no other ↦ R.others key' id' slot' (sym (if_neg (ℕ_discrete key key') other _ _) ∙ e) at'
  ];
  absent = λ key' e. elim (ℕ_discrete key key') [
    | yes same ↦ cc (sym (if_pos (ℕ_discrete key key') same _ _) ∙ e)
    | no other ↦
        if_neg (ℕ_discrete key key') other _ _
        ∙ R.absent key' (sym (if_neg (ℕ_discrete key key') other _ _) ∙ e)
  ];
  stays = λ key' id' slot' r' e at' accessed' le'. elim (ℕ_discrete key key') [
    | yes same ↦
        let f : some id ≡ some id' = sym (if_pos (ℕ_discrete key key') same _ _) ∙ e in
        (
          if_pos (ℕ_discrete key key') same _ _ ∙ f,
          R.others key' id' slot' (subst (λ q. find q map ≡ none) same once) at',
        )
    | no other ↦
        let (g, at2) =
          R.stays key' id' slot' r' (sym (if_neg (ℕ_discrete key key') other _ _) ∙ e) at' accessed'
            le' in
        (if_neg (ℕ_discrete key key') other _ _ ∙ g, at2)
  ];
  goes = λ key' id' slot' r' e at' accessed' lt. elim (ℕ_discrete key key') [
    | yes same ↦
        let f : id ≡ id' = some-injective (sym (if_pos (ℕ_discrete key key') same _ _) ∙ e) in
        let g = same_access t key key' id id' slot slot' r r' at at' accessed accessed' f in
        absurd (omega arith)
    | no other ↦
        if_neg (ℕ_discrete key key') other _ _
        ∙ R.goes key' id' slot' r' (sym (if_neg (ℕ_discrete key key') other _ _) ∙ e) at' accessed'
            lt
  ];
}

-- The first entry goes.
Retained-rest :
    (last_changed : Revision) (t : Tables) (key : ℕ) (id : InternId) (slot : Slot) (r : Revision)
    (map : List (ℕ × InternId)) (t' : Tables) (kept : List (ℕ × InternId))
    → find key map ≡ none
    → IsSlotOf t key id slot
    → slot.accessed_at ≡ some r
    → r < last_changed
    → Retained last_changed (released id t) map t' kept
    → Retained last_changed t ((key, id) ∷ map) t' kept
unfolding find
Retained-rest last_changed t key id slot r map t' kept once at accessed lt R = record {
  same_map = R.same_map;
  owned = R.owned;
  frees = R.frees;
  others = λ key' id' slot' e at'. elim (ℕ_discrete key key') [
    | yes same ↦ cc (sym (if_pos (ℕ_discrete key key') same _ _) ∙ e)
    | no other ↦
        R.others key' id' slot' (sym (if_neg (ℕ_discrete key key') other _ _) ∙ e)
          (released-IsSlotOf t key key' id id' slot slot' at at' other)
  ];
  absent = λ key' e. elim (ℕ_discrete key key') [
    | yes same ↦ cc (sym (if_pos (ℕ_discrete key key') same _ _) ∙ e)
    | no other ↦ R.absent key' (sym (if_neg (ℕ_discrete key key') other _ _) ∙ e)
  ];
  stays = λ key' id' slot' r' e at' accessed' le'. elim (ℕ_discrete key key') [
    | yes same ↦
        let f : id ≡ id' = some-injective (sym (if_pos (ℕ_discrete key key') same _ _) ∙ e) in
        let g = same_access t key key' id id' slot slot' r r' at at' accessed accessed' f in
        absurd (omega arith)
    | no other ↦
        R.stays key' id' slot' r' (sym (if_neg (ℕ_discrete key key') other _ _) ∙ e)
          (released-IsSlotOf t key key' id id' slot slot' at at' other) accessed' le'
  ];
  goes = λ key' id' slot' r' e at' accessed' lt'. elim (ℕ_discrete key key') [
    | yes same ↦ R.absent key' (subst (λ q. find q map ≡ none) same once)
    | no other ↦
        R.goes key' id' slot' r' (sym (if_neg (ℕ_discrete key key') other _ _) ∙ e)
          (released-IsSlotOf t key key' id id' slot slot' at at' other) accessed' lt'
  ];
}

-- The loop over a map, for a strategy that discards at all.
pub retain-Retained :
    (d : DiscardIf) (last_changed : Revision)
    → d ≢ never
    → (map : List (ℕ × InternId)) (t : Tables) → Owned t map
    → (ids : List ℕ) → Frees t.values t.first_free ids
    → (t' : Tables) × (kept : List (ℕ × InternId)) × (retain d last_changed map t ≡ returns kept t')
      × Retained last_changed t map t' kept
unfolding retain find
retain-Retained d last_changed ne [] t o ids frees = (
  t,
  [],
  refl,
  record {
    same_map = refl;
    owned = tt;
    frees = (ids, frees);
    others = λ key id slot e at. at;
    absent = λ key e. e;
    stays = λ key id slot r e at accessed le. cc;
    goes = λ key id slot r e at accessed lt. cc;
  },
)
retain-Retained d last_changed ne ((key, id) ∷ map) t o ids frees =
    let at = o.0.1 in
    let (r, accessed) = at.accessed in
    let asked = retain_key-verdict d last_changed t key id o.0.0 r ne at accessed in
    elim (dec_lt r last_changed) [
      | yes lt ↦
          let (t', kept, run, R) =
            retain-Retained d last_changed ne map (released id t)
              (released-Owned t key id o.0.0 at map o.1 o.2) (as_usize id ∷ ids)
              (released-Frees t key id o.0.0 ids at frees) in
          let test : ltb r last_changed ≡ true = ground arith in
          (
            t',
            kept,
            ap (λ x. and_then x going) (asked ∙ ap answer test)
                ∙ ap (λ x. and_then x (λ rest. pure (answered false rest))) run,
            Retained-rest last_changed t key id o.0.0 r map t' kept o.1 at accessed lt R,
          )
      | no ge ↦
          let (t', kept, run, R) = retain-Retained d last_changed ne map t o.2 ids frees in
          let test : ltb r last_changed ≡ false = ground arith in
          (
            t',
            (key, id) ∷ kept,
            ap (λ x. and_then x going) (asked ∙ ap answer test)
                ∙ ap (λ x. and_then x (λ rest. pure (answered true rest))) run,
            Retained-first last_changed t key id o.0.0 r map t' kept o.1 at accessed (omega arith)
                R,
          )
    ]
  where
    answer : Bool → Outcome Tables Bool
    answer b = if b then returns false (released id t) else returns true t

    answered : Bool → List (ℕ × InternId) → List (ℕ × InternId)
    answered stays rest = if stays then (key, id) ∷ rest else rest

    going : Bool → M Tables (List (ℕ × InternId))
    going stays = retain d last_changed map >>= λ rest. pure (answered stays rest)
