-- ===== src/Lru/Promote.antt =====
-- Promotions to the green zone of src/lru.rs.
use salsa.Base.{
  ℕ, ◌≤◌, ◌<◌, ◌≡◌, ◌≢◌, refl, sym, ◌∙◌, ap, subst, inl, inr, Option, none, some, if_pos, if_neg,
  not, ◌==◌, ℕ_discrete, dec_lt, arith, length, min, get_elem?-total, get_elem?-below,
}
use salsa.Base.Outcome.{returns, M, and_then, ◌>>=◌, modify}
use salsa.Lru.{
  Lru, usize_max, store, demote, pick_index, promote_yellow_to_green, promote_red_to_green,
  record_use_at,
}
use salsa.Lru.Index.{
  IsIndexed, IsZoned, IsHeld, IsReordered, IsReordered-trans, IsZoned-reordered, stored-IsIndexed,
  demoted, demote-run, demoted-IsHeld, demoted-IsReordered,
}

-- What the documentation of `gen_range` promises: a range that is not empty gives a member of it.
abbrev pub IsInRange : {R : Type 0} → (ℕ → ℕ → R → Option (ℕ × R)) → Type 0
IsInRange {R} gen_range =
    (first last : ℕ) (rng : R)
    → first < last
    → (i : ℕ) × (rng' : R) × (gen_range first last rng ≡ some (i, rng')) × (first ≤ i) × (i < last)

module _ {R : Type 0} where
  -- The node is in the green zone of a list that is indexed, and nothing else changed.
  pub record IsPromoted (node : ℕ) (lru lru' : Lru R) : Type 0 where
    pub indexed : IsIndexed lru'
    pub used : lru'.index node < lru'.end_green_zone
    pub reordered : IsReordered node lru lru'

  pub IsReordered-refl : {node : ℕ} (a : Lru R) → IsReordered node a a
  IsReordered-refl a = record {
    quick = refl;
    green = refl;
    yellow = refl;
    red = refl;
    size = refl;
    members = λ x n. refl;
  }

  pub indexed-IsHeld :
      (lru : Lru R) (node : ℕ)
      → IsIndexed lru
      → lru.index node ≢ usize_max
      → IsHeld lru node (lru.index node)
  indexed-IsHeld lru node v inside = record {
    held = elim (v.finds node) [ inl out ↦ absurd (inside out) | inr e ↦ e ];
    points = λ i x n e. (v.points i x e, λ s. n (sym (v.points i x e) ∙ ap lru.index s));
    finds = λ x n. v.finds x;
  }

  with_rng-IsHeld :
      {node p : ℕ} (lru : Lru R) (rng : R)
      → IsHeld lru node p
      → IsHeld (record lru { rng = rng }) node p
  with_rng-IsHeld lru rng h = record { held = h.held; points = h.points; finds = h.finds }

  with_rng-IsReordered :
      {node : ℕ} (a b : Lru R) (rng : R)
      → IsReordered node (record a { rng = rng }) b
      → IsReordered node a b
  with_rng-IsReordered a b rng s = record {
    quick = s.quick;
    green = s.green;
    yellow = s.yellow;
    red = s.red;
    size = s.size;
    members = s.members;
  }

  pub with_rng-IsZoned : (a : Lru R) (rng : R) → IsZoned a → IsZoned (record a { rng = rng })
  with_rng-IsZoned a rng z = record {
    quick = z.quick;
    green = z.green;
    yellow = z.yellow;
    red = z.red;
    bounded = z.bounded;
    fits = z.fits;
  }

  module _ (gen_range : ℕ → ℕ → R → Option (ℕ × R)) (in_range : IsInRange gen_range) where
    pub pick_index_lem :
        (first last : ℕ) (lru : Lru R)
        → first < last
        → first < length lru.entries
        → (i : ℕ) × (rng : R) × (pick_index gen_range first last lru
            ≡ returns i (record lru { rng = rng }))
          × (first ≤ i)
          × (i < last)
          × (i < length lru.entries)
    unfolding pick_index
    pick_index_lem first last lru h k =
        let (i, rng, e, a, b) =
          in_range first (min last (length lru.entries)) lru.rng (omega arith) in
        (i, rng, rw (e, pick_index), a, omega arith, omega arith)

    pub promote_yellow-IsPromoted :
        (lru : Lru R) (node p : ℕ)
        → IsHeld lru node p
        → IsZoned lru
        → lru.end_green_zone ≤ p
        → (lru' : Lru R) × (promote_yellow_to_green gen_range node p lru ≡ returns tt lru')
          × IsPromoted node lru lru'
    unfolding promote_yellow_to_green
    promote_yellow-IsPromoted lru node p h z le =
        let below = get_elem?-below lru.entries p h.held in
        let (g, rng, e, lo, hi, inside) =
          pick_index_lem 0 lru.end_green_zone lru z.green (omega arith) in
        let picked : Lru R = record lru { rng = rng } in
        let (a, at) = get_elem?-total lru.entries g inside in
        let held = with_rng-IsHeld lru rng h in
        let ne : g ≢ p = omega arith in
        let moved = demoted node a g p picked in
        (
          record moved { index = store moved.index node g },
          ap (λ t. and_then t finish) e
              ∙ ap (λ t. and_then t (λ _. store_node g)) (demote-run picked node p g a held ne at),
          record {
            indexed = stored-IsIndexed moved node g (demoted-IsHeld picked node p g a held ne at);
            used =
                subst (λ t. t < lru.end_green_zone) (sym (if_pos (ℕ_discrete node node) refl _ _))
                  hi;
            reordered =
                IsReordered-trans
                  (with_rng-IsReordered lru moved rng
                    (demoted-IsReordered picked node p g a held ne at (with_rng-IsZoned lru rng z)))
                  (stored-IsReordered moved g);
          },
        )
      where
        store_node : ℕ → M (Lru R) (Unit {0})
        store_node g = modify (λ l. record l { index = store l.index node g })

        finish : ℕ → M (Lru R) (Unit {0})
        finish g = demote g p >>= λ _. store_node g

        stored-IsReordered :
            (a : Lru R) (g : ℕ) → IsReordered node a (record a { index = store a.index node g })
        stored-IsReordered a g = record {
          quick = refl;
          green = refl;
          yellow = refl;
          red = refl;
          size = refl;
          members = λ x n. ap (λ t. not (t == usize_max)) (if_neg (ℕ_discrete x node) n _ _);
        }

    pub promote_red-IsPromoted :
        (lru : Lru R) (node p : ℕ)
        → IsHeld lru node p
        → IsZoned lru
        → lru.end_yellow_zone ≤ p
        → (lru' : Lru R) × (promote_red_to_green gen_range node p lru ≡ returns tt lru')
          × IsPromoted node lru lru'
    unfolding promote_red_to_green
    promote_red-IsPromoted lru node p h z le =
        let below = get_elem?-below lru.entries p h.held in
        let (y, rng, e, lo, hi, inside) =
          pick_index_lem lru.end_green_zone lru.end_yellow_zone lru z.yellow
            (omega (arith, z.yellow)) in
        let picked : Lru R = record lru { rng = rng } in
        let (a, at) = get_elem?-total lru.entries y inside in
        let held = with_rng-IsHeld lru rng h in
        let ne : y ≢ p = omega arith in
        let zoned = with_rng-IsZoned lru rng z in
        let same = demoted-IsReordered picked node p y a held ne at zoned in
        let (lru', run, promoted) =
          promote_yellow-IsPromoted (demoted node a y p picked) node y
            (demoted-IsHeld picked node p y a held ne at) (IsZoned-reordered same zoned) lo in
        (
          lru',
          ap (λ t. and_then t finish) e
              ∙ ap (λ t. and_then t (λ _. promote_yellow_to_green gen_range node y))
                  (demote-run picked node p y a held ne at)
              ∙ run,
          record {
            indexed = promoted.indexed;
            used = promoted.used;
            reordered =
                IsReordered-trans (with_rng-IsReordered lru (demoted node a y p picked) rng same)
                  promoted.reordered;
          },
        )
      where
        finish : ℕ → M (Lru R) (Unit {0})
        finish y = demote y p >>= λ _. promote_yellow_to_green gen_range node y

    -- The use of a node of the list, whatever is done for others.
    pub record_use_at-IsPromoted :
        (lru : Lru R) (node : ℕ) (insert_new : M (Lru R) (Option ℕ))
        → IsIndexed lru
        → IsZoned lru
        → lru.index node < lru.end_red_zone
        → (lru' : Lru R) × (record_use_at gen_range node (lru.index node) insert_new lru
            ≡ returns none lru')
          × IsPromoted node lru lru'
    unfolding record_use_at
    record_use_at-IsPromoted lru node insert_new v z h =
        let held = indexed-IsHeld lru node v (omega (arith, z.bounded)) in
        elim (dec_lt (lru.index node) lru.end_green_zone) [
          | yes green ↦ (
            lru,
            ground arith,
            record { indexed = v; used = green; reordered = IsReordered-refl lru },
          )
          | no n ↦ (elim (dec_lt (lru.index node) lru.end_yellow_zone) [
            | yes yellow ↦
                let (lru', run, p) =
                  promote_yellow-IsPromoted lru node (lru.index node) held z (omega arith) in
                (lru', ground (arith, run), p)
            | no m ↦
                let (lru', run, p) =
                  promote_red-IsPromoted lru node (lru.index node) held z (omega arith) in
                (lru', ground (arith, run), p)
          ])
        ]
