-- ===== src/Lru/Capacity.antt =====
-- The capacity of the list of src/lru.rs.
use salsa.Base.{
  ℕ, zero, suc, ◌+◌, ◌-◌, ◌/◌, ◌≤◌, ◌<◌, leb, Bool, true, if◌then◌else◌, ◌≡◌, ◌≢◌, refl, sym, ◌∙◌,
  ap, ◌⊎◌, inl, inr, false, not, some, List, [], ◌∷◌, if_pos, if_neg, ◌==◌, ℕ_discrete, dec_le,
  arith, get_elem?, max, some-injective,
}
use salsa.Base.Outcome.{Outcome, returns, panics, and_then, pure, panic, modify}
use salsa.Lru.{
  Lru, usize_max, max_entries, store, is_in_lru, clear_all, set_zones, resize, set_lru_capacity,
}
use salsa.Lru.Index.{IsIndexed, IsZoned}

store_max : (index : ℕ → ℕ) (y x : ℕ) → index x ≡ usize_max → store index y usize_max x ≡ usize_max
store_max index y x e = elim (ℕ_discrete x y) [
  | yes s ↦ if_pos (ℕ_discrete x y) s _ _
  | no n ↦ if_neg (ℕ_discrete x y) n _ _ ∙ e
]

clear_all-max :
    (entries : List ℕ) (index : ℕ → ℕ) (x : ℕ)
    → (index x ≡ usize_max) ⊎ ((i : ℕ) × (get_elem? entries i ≡ some x))
    → clear_all entries index x ≡ usize_max
unfolding clear_all
clear_all-max [] index x (inl e) = e
clear_all-max [] index x (inr (i, e)) = cc
clear_all-max (y ∷ ys) index x (inl e) =
    clear_all-max ys (store index y usize_max) x (inl (store_max index y x e))
clear_all-max (y ∷ ys) index x (inr (zero, e)) =
    clear_all-max ys (store index y usize_max) x
      (inl (if_pos (ℕ_discrete x y) (some-injective (sym e)) _ _))
clear_all-max (y ∷ ys) index x (inr (suc i, e)) =
    clear_all-max ys (store index y usize_max) x (inr (i, e))

module _ {R : Type 0} where
  -- The list with its zones set and its entries forgotten.
  abbrev emptied : ℕ → ℕ → ℕ → Lru R → Lru R
  emptied g y r lru = record (set_zones g y r lru) {
    entries = [];
    index = clear_all lru.entries lru.index;
  }

  resize-out :
      (g y r : ℕ) (lru : Lru R) → IsIndexed lru → (x : ℕ) → (emptied g y r lru).index x ≡ usize_max
  resize-out g y r lru v x =
      clear_all-max lru.entries lru.index x
        (elim (v.finds x) [ inl out ↦ inl out | inr e ↦ inr (lru.index x, e) ])

  -- `resize` once its zones are set, with the answer of its test of the capacity.
  abbrev checked : ℕ → ℕ → ℕ → Lru R → Bool → Outcome (Lru R) (Unit {0})
  checked g y r lru b =
      let zoned = set_zones g y r lru in
      and_then (if b then pure tt zoned else panic zoned)
        (λ _. modify (λ t. record t { entries = []; index = clear_all t.entries t.index }))

  resize-run :
      (g y r : ℕ) (lru : Lru R)
      → g + y + r ≤ max_entries
      → resize g y r lru ≡ returns tt (emptied g y r lru)
  unfolding resize
  resize-run g y r lru h = ap (checked g y r lru) fits
    where
      fits : leb (g + y + r) max_entries ≡ true
      fits = ground arith

  resize-panics :
      (g y r : ℕ) (lru : Lru R)
      → max_entries < g + y + r
      → resize g y r lru ≡ panics (set_zones g y r lru)
  unfolding resize
  resize-panics g y r lru h = ap (checked g y r lru) too_big
    where
      too_big : leb (g + y + r) max_entries ≡ false
      too_big = ground arith

  -- The list is empty, switched off for capacity 0, and has its zones for any other.
  pub record IsResized (len : ℕ) (lru' : Lru R) : Type 0 where
    pub indexed : IsIndexed lru'
    pub empty : (x : ℕ) → is_in_lru lru' x ≡ false
    pub off : len ≡ 0 → lru'.green_zone ≡ 0
    pub on : len ≢ 0 → IsZoned lru' × (lru'.end_red_zone ≡ max len 3)

  -- What setting a capacity leaves: a list of that size, or a panic when it is too big, which
  -- leaves the entries and their indices as they are.
  abbrev pub Resized : ℕ → Lru R → Outcome (Lru R) (Unit {0}) → Type 0
  Resized len lru o =
      ((lru' : Lru R) × (max len 3 ≤ max_entries) × (o ≡ returns tt lru') × IsResized len lru')
      ⊎ ((lru' : Lru R) × (max_entries < max len 3)
          × (o ≡ panics lru')
          × (lru'.entries ≡ lru.entries)
          × (lru'.index ≡ lru.index))

  resize-IsResized :
      (len g y r : ℕ) (lru : Lru R)
      → IsIndexed lru
      → (len ≡ 0 → g ≡ 0)
      → (len ≢ 0 → (1 ≤ g) × (1 ≤ y) × (1 ≤ r) × (g + y + r ≤ usize_max) × (g + y + r ≡ max len 3))
      → IsResized len (emptied g y r (record lru { green_zone = g }))
  resize-IsResized len g y r lru v off on = record {
    indexed = record { points = λ i x e. cc; finds = λ x. inl (resize-out g y r lru v x) };
    empty = λ x. ap (λ t. not (t == usize_max)) (resize-out g y r lru v x);
    off = off;
    on = λ n.
        let (a, b, c, d, e) = on n in
        (
          record {
            quick = refl;
            green = a;
            yellow = omega arith;
            red = omega arith;
            bounded = d;
            fits = omega arith;
          },
          e,
        );
  }

  -- Setting a capacity empties the list. Capacity 0 switches it off; any other makes zones that
  -- are not empty and have room for as many nodes together, but at least for 3. Where a vector
  -- cannot have so much room, it panics and leaves the entries and their indices as they are.
  pub set_lru_capacity-IsResized :
      (len : ℕ) (lru : Lru R)
      → IsIndexed lru
      → len ≤ usize_max
      → Resized len lru (set_lru_capacity len lru)
  unfolding set_lru_capacity
  set_lru_capacity-IsResized len lru v h = elim (ℕ_discrete len 0) [
    | yes e ↦
        let off = record lru { green_zone = 0 } in
        inl (
          emptied 0 0 0 off,
          omega arith,
          ap chosen (is_off e) ∙ resize-run 0 0 0 off (omega arith),
          resize-IsResized len 0 0 0 lru v (λ _. refl) (λ n. absurd (n e)),
        )
    | no n ↦ (elim (dec_le l max_entries) [
      | yes small ↦ inl (
        emptied g y (l - y - g) marked,
        small,
        ap chosen (is_on n) ∙ resize-run g y (l - y - g) marked (omega arith),
        resize-IsResized len g y (l - y - g) lru v (λ e. absurd (n e))
            (λ _. (omega arith, omega arith, omega arith, omega arith, omega arith)),
      )
      | no big ↦ inr (
        set_zones g y (l - y - g) marked,
        omega arith,
        ap chosen (is_on n) ∙ resize-panics g y (l - y - g) marked (omega arith),
        refl,
        refl,
      )
    ])
  ]
    where
      l : ℕ
      l = max len 3

      g : ℕ
      g = max (l / 10) 1

      y : ℕ
      y = max (l / 5) 1

      marked : Lru R
      marked = record lru { green_zone = g }

      chosen : Bool → Outcome (Lru R) (Unit {0})
      chosen b =
          if b then resize 0 0 0 (record lru { green_zone = 0 }) else resize g y (l - y - g) marked

      is_off : len ≡ 0 → (len == 0) ≡ true
      is_off e = ground arith

      is_on : len ≢ 0 → (len == 0) ≡ false
      is_on n = ground arith
