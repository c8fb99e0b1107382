-- ===== src/Lru/Displace.antt =====
-- How a new node comes into the list of src/lru.rs: at its end, or in the place of another node.
use salsa.Base.{
  ℕ, ◌≤◌, ◌<◌, ◌≡◌, ◌≢◌, refl, sym, ◌∙◌, ap, inl, inr, false, not, Option, none, some, List, [],
  ◌∷◌, ◌++◌, if_pos, if_neg, ◌==◌, ℕ_discrete, arith, length, get_elem?, set, get_elem?-set_self,
  get_elem?-set_ne, length-set, length-append, get_elem?-append, get_elem?-append_last,
  get_elem?-append_inv, get_elem?-below, some-injective, get_elem?-total,
}
use salsa.Base.Outcome.{returns, M, and_then, ◌>>◌, modify, unwrap, pure}
use salsa.Lru.{Lru, usize_max, store, is_in_lru, promote_red_to_green, displace}
use salsa.Lru.Index.{IsIndexed, IsZoned, IsHeld, IsZoned-reordered, stored-IsIndexed}
use salsa.Lru.Promote.{IsInRange, with_rng-IsZoned, pick_index_lem, promote_red-IsPromoted}

module _ {R : Type 0} where
  -- Which nodes a use takes out of the list: none, or one node of the red zone of a full list, to
  -- make room for a new node.
  abbrev pub Displaced : ℕ → Lru R → Lru R → Option ℕ → Type 0
  Displaced node lru lru' none = (x : ℕ) → x ≢ node → is_in_lru lru' x ≡ is_in_lru lru x
  Displaced node lru lru' (some v) =
      (v ≢ node)
      × (is_in_lru lru node ≡ false)
      × (length lru.entries ≡ lru.end_red_zone)
      × (lru.end_yellow_zone ≤ lru.index v)
      × (lru.index v < lru.end_red_zone)
      × (is_in_lru lru' v ≡ false)
      × ((x : ℕ) → x ≢ node → x ≢ v → is_in_lru lru' x ≡ is_in_lru lru x)

  pub record IsUsed (node : ℕ) (lru : Lru R) (victim : Option ℕ) (lru' : Lru R) : Type 0 where
    pub indexed : IsIndexed lru'
    pub zoned : IsZoned lru'
    pub capacity : lru'.end_red_zone ≡ lru.end_red_zone
    pub green : lru'.index node < lru'.end_green_zone
    pub displaced : Displaced node lru lru' victim

  -- The list with a new node at its end.
  abbrev pub pushed : ℕ → Lru R → Lru R
  pushed node lru = record lru {
    entries = lru.entries ++ node ∷ [];
    index = store lru.index node (length lru.entries);
  }

  pub pushed-IsIndexed :
      (lru : Lru R) (node : ℕ)
      → IsIndexed lru
      → IsZoned lru
      → lru.index node ≡ usize_max
      → IsIndexed (pushed node lru)
  pushed-IsIndexed lru node v z out =
      stored-IsIndexed (record lru { entries = lru.entries ++ node ∷ [] }) node (length lru.entries)
        (record {
          held = get_elem?-append_last lru.entries node;
          points = λ i x n e.
              let old = get_elem?-append_inv lru.entries node i n e in
              (
                v.points i x old,
                λ s. absurd (
                    omega (
                      arith,
                      sym (v.points i x old) ∙ ap lru.index s ∙ out,
                      get_elem?-below lru.entries i old,
                      z.fits,
                      z.bounded,
                    )),
              );
          finds = λ x n. elim (v.finds x) [
            | inl m ↦ inl m
            | inr e ↦ inr (get_elem?-append lru.entries node (lru.index x) e)
          ];
        })

  pub pushed-IsZoned :
      (lru : Lru R) (node : ℕ)
      → IsZoned lru
      → length lru.entries < lru.end_red_zone
      → IsZoned (pushed node lru)
  pushed-IsZoned lru node z h = record {
    quick = z.quick;
    green = z.green;
    yellow = z.yellow;
    red = z.red;
    bounded = z.bounded;
    fits = omega (arith, length-append lru.entries (node ∷ []));
  }

  -- The full list where a new node took the place of another one.
  abbrev replaced : ℕ → ℕ → ℕ → Lru R → Lru R
  replaced node p victim lru = record lru {
    entries = set lru.entries p node;
    index = store lru.index victim usize_max;
  }

  replaced-IsHeld :
      (lru : Lru R) (node p victim : ℕ)
      → IsIndexed lru
      → IsZoned lru
      → lru.index node ≡ usize_max
      → get_elem? lru.entries p ≡ some victim
      → IsHeld (replaced node p victim lru) node p
  replaced-IsHeld lru node p victim v z out e = record {
    held = get_elem?-set_self lru.entries p node (get_elem?-below lru.entries p e);
    points = λ i x n g.
        let old : get_elem? lru.entries i ≡ some x =
          sym (get_elem?-set_ne lru.entries node (λ s. n (sym s))) ∙ g in
        let to = v.points i x old in
        (
          if_neg (ℕ_discrete x victim) (λ s. n (sym to ∙ ap lru.index s ∙ v.points p victim e)) _ _
              ∙ to,
          λ s. absurd (
              omega (
                arith,
                sym to ∙ ap lru.index s ∙ out,
                get_elem?-below lru.entries i old,
                z.fits,
                z.bounded,
              )),
        );
    finds = λ x n. elim (ℕ_discrete x victim) [
      | yes s ↦ inl (if_pos (ℕ_discrete x victim) s _ _)
      | no m ↦
          let same : store lru.index victim usize_max x ≡ lru.index x =
            if_neg (ℕ_discrete x victim) m _ _ in
          (elim (v.finds x) [
            | inl gone ↦ inl (same ∙ gone)
            | inr g ↦ inr (
                ap (get_elem? (set lru.entries p node)) same
                ∙ get_elem?-set_ne lru.entries node
                    (λ s. m (some-injective (sym g ∙ ap (get_elem? lru.entries) (sym s) ∙ e)))
                ∙ g)
          ])
    ];
  }

  replaced-IsZoned :
      (lru : Lru R) (node p victim : ℕ) → IsZoned lru → IsZoned (replaced node p victim lru)
  replaced-IsZoned lru node p victim z = record {
    quick = z.quick;
    green = z.green;
    yellow = z.yellow;
    red = z.red;
    bounded = z.bounded;
    fits = omega (arith, length-set lru.entries p node, z.fits);
  }

  module _ (gen_range : ℕ → ℕ → R → Option (ℕ × R)) (in_range : IsInRange gen_range) where
    pub displace-IsUsed :
        (lru : Lru R) (node : ℕ)
        → IsIndexed lru
        → IsZoned lru
        → lru.index node ≡ usize_max
        → length lru.entries ≡ lru.end_red_zone
        → (v : ℕ) × (lru' : Lru R) × (displace gen_range node lru ≡ returns (some v) lru')
          × IsUsed node lru (some v) lru'
    unfolding displace
    displace-IsUsed lru node v z out full =
        let (p, rng, e, lo, hi, inside) =
          pick_index_lem gen_range in_range lru.end_yellow_zone lru.end_red_zone lru z.red
            (omega (arith, z.red)) in
        let (victim, at) = get_elem?-total lru.entries p inside in
        let picked : Lru R = record lru { rng = rng } in
        let picked-IsIndexed : IsIndexed picked = record { points = v.points; finds = v.finds } in
        let zoned = with_rng-IsZoned lru rng z in
        let room = replaced node p victim picked in
        let room_zoned = replaced-IsZoned picked node p victim zoned in
        let held = replaced-IsHeld picked node p victim picked-IsIndexed zoned out at in
        let (lru', run, promoted) =
          promote_red-IsPromoted gen_range in_range room node p held room_zoned lo in
        let to = v.points p victim at in
        let other : victim ≢ node =
          λ s. absurd (omega (arith, sym to ∙ ap lru.index s ∙ out, z.bounded)) in
        (
          victim,
          lru',
          ap (λ t. and_then t pick_victim) e
              ∙ ap (λ t. and_then (unwrap t picked) (evict_at lru.entries p)) at
              ∙ ap (λ t. and_then t (λ _. pure (some victim))) run,
          record {
            indexed = promoted.indexed;
            zoned = IsZoned-reordered promoted.reordered room_zoned;
            capacity = promoted.reordered.red;
            green = promoted.used;
            displaced = (
              other,
              ap (λ t. not (t == usize_max)) out,
              full,
              omega (arith, to),
              omega (arith, to),
              promoted.reordered.members victim other
                  ∙ ap (λ t. not (t == usize_max)) (if_pos (ℕ_discrete victim victim) refl _ _),
              λ x n m.
                  promoted.reordered.members x n
                  ∙ ap (λ t. not (t == usize_max)) (if_neg (ℕ_discrete x victim) m _ _),
            );
          },
        )
      where
        evict_at : List ℕ → ℕ → ℕ → M (Lru R) (Option ℕ)
        evict_at entries p victim = do
          modify (λ l. record l {
            entries = set entries p node;
            index = store l.index victim usize_max;
          })
          promote_red_to_green gen_range node p
          pure (some victim)

        pick_victim : ℕ → M (Lru R) (Option ℕ)
        pick_victim p l = and_then (unwrap (get_elem? l.entries p) l) (evict_at l.entries p)
