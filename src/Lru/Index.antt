-- ===== src/Lru/Index.antt =====
-- The entries of the list of src/lru.rs against the indices of the nodes.
use salsa.Base.{
  ℕ, ◌≤◌, ◌<◌, ◌≡◌, ◌≢◌, refl, sym, ◌∙◌, ap, subst, ◌⊎◌, inl, inr, not, some, List, if_pos, if_neg,
  ◌==◌, ℕ_discrete, arith, length, get_elem?, set, get_elem?-set_self, get_elem?-set_ne, length-set,
  some-injective, get_elem?-below,
}
use salsa.Base.Outcome.{returns, M, and_then, ◌>>=◌, modify, unwrap}
use salsa.Lru.{Lru, usize_max, store, swap, demote, is_in_lru}

module _ {R : Type 0} where
  pub record IsIndexed (lru : Lru R) : Type 0 where
    pub points : (i x : ℕ) → get_elem? lru.entries i ≡ some x → lru.index x ≡ i
    pub finds : (x : ℕ) → (lru.index x ≡ usize_max) ⊎ (get_elem? lru.entries (lru.index x) ≡ some x)

  -- The zones of a list that is switched on, and its length within them.
  pub record IsZoned (lru : Lru R) : Type 0 where
    pub quick : lru.green_zone ≡ lru.end_green_zone
    pub green : 1 ≤ lru.end_green_zone
    pub yellow : lru.end_green_zone < lru.end_yellow_zone
    pub red : lru.end_yellow_zone < lru.end_red_zone
    pub bounded : lru.end_red_zone ≤ usize_max
    pub fits : length lru.entries ≤ lru.end_red_zone

  -- The node is at `p`, whatever its index says; all other nodes are indexed.
  pub record IsHeld (lru : Lru R) (node p : ℕ) : Type 0 where
    pub held : get_elem? lru.entries p ≡ some node
    pub points :
        (i x : ℕ) → i ≢ p → get_elem? lru.entries i ≡ some x → (lru.index x ≡ i) × (x ≢ node)
    pub finds :
        (x : ℕ)
        → x ≢ node
        → (lru.index x ≡ usize_max) ⊎ (get_elem? lru.entries (lru.index x) ≡ some x)

  -- Nothing changes but the order of the entries: the zones, the length and the nodes that are in
  -- the list, the node of the operation left aside.
  pub record IsReordered (node : ℕ) (lru lru' : Lru R) : Type 0 where
    pub quick : lru'.green_zone ≡ lru.green_zone
    pub green : lru'.end_green_zone ≡ lru.end_green_zone
    pub yellow : lru'.end_yellow_zone ≡ lru.end_yellow_zone
    pub red : lru'.end_red_zone ≡ lru.end_red_zone
    pub size : length lru'.entries ≡ length lru.entries
    pub members : (x : ℕ) → x ≢ node → is_in_lru lru' x ≡ is_in_lru lru x

  pub IsReordered-trans :
      {node : ℕ} {a b c : Lru R}
      → IsReordered node a b
      → IsReordered node b c
      → IsReordered node a c
  IsReordered-trans s t = record {
    quick = t.quick ∙ s.quick;
    green = t.green ∙ s.green;
    yellow = t.yellow ∙ s.yellow;
    red = t.red ∙ s.red;
    size = t.size ∙ s.size;
    members = λ x n. t.members x n ∙ s.members x n;
  }

  pub IsZoned-reordered : {node : ℕ} {a b : Lru R} → IsReordered node a b → IsZoned a → IsZoned b
  IsZoned-reordered s z = record {
    quick = s.quick ∙ z.quick ∙ sym s.green;
    green = omega (arith, z.green, s.green);
    yellow = omega (arith, z.yellow, s.green, s.yellow);
    red = omega (arith, z.red, s.yellow, s.red);
    bounded = omega (arith, z.bounded, s.red);
    fits = omega (arith, z.fits, s.red, s.size);
  }

  -- The node at its place, with its index stored.
  pub stored-IsIndexed :
      (lru : Lru R) (node p : ℕ)
      → IsHeld lru node p
      → IsIndexed (record lru { index = store lru.index node p })
  stored-IsIndexed lru node p h = record {
    points = λ i x e. elim (ℕ_discrete i p) [
      | yes same ↦
          if_pos (ℕ_discrete x node)
            (some-injective (sym e ∙ ap (get_elem? lru.entries) same ∙ h.held)) _ _
          ∙ sym same
      | no other ↦
          if_neg (ℕ_discrete x node) (h.points i x other e).1 _ _ ∙ (h.points i x other e).0
    ];
    finds = λ x. elim (ℕ_discrete x node) [
      | yes same ↦ inr (
          ap (get_elem? lru.entries) (if_pos (ℕ_discrete x node) same _ _)
          ∙ h.held
          ∙ ap some (sym same))
      | no other ↦
          let e : store lru.index node p x ≡ lru.index x = if_neg (ℕ_discrete x node) other _ _ in
          (elim (h.finds x other) [
            | inl m ↦ inl (e ∙ m)
            | inr m ↦ inr (ap (get_elem? lru.entries) e ∙ m)
          ])
    ];
  }

  -- The state after `demote`, when it met the node `a` at the new place.
  abbrev pub demoted : ℕ → ℕ → ℕ → ℕ → Lru R → Lru R
  demoted node a new old lru = record lru {
    entries = set (set lru.entries new node) old a;
    index = store lru.index a old;
  }

  module _ (lru : Lru R) (node old new a : ℕ) (h : IsHeld lru node old) (ne : new ≢ old)
      (e : get_elem? lru.entries new ≡ some a) where
    at_old : get_elem? (set (set lru.entries new node) old a) old ≡ some a
    at_old =
        get_elem?-set_self (set lru.entries new node) old a
          (omega (arith, get_elem?-below lru.entries old h.held, length-set lru.entries new node))

    at_new : get_elem? (set (set lru.entries new node) old a) new ≡ some node
    at_new =
        get_elem?-set_ne (set lru.entries new node) a (λ s. ne (sym s))
        ∙ get_elem?-set_self lru.entries new node (get_elem?-below lru.entries new e)

    elsewhere :
        (i : ℕ)
        → i ≢ old
        → i ≢ new
        → get_elem? (set (set lru.entries new node) old a) i ≡ get_elem? lru.entries i
    elsewhere i m n =
        get_elem?-set_ne (set lru.entries new node) a (λ s. m (sym s))
        ∙ get_elem?-set_ne lru.entries node (λ s. n (sym s))

    pub demote-run : demote new old lru ≡ returns tt (demoted node a new old lru)
    unfolding demote
    demote-run =
        ap (λ t. and_then (unwrap t lru) store_demoted) swapped
        ∙ ap (λ t. and_then (unwrap t lru) (store_index (set (set lru.entries new node) old a)))
            at_old
      where
        store_index : List ℕ → ℕ → M (Lru R) (Unit {0})
        store_index entries x =
            modify (λ lru'. record lru' { entries = entries; index = store lru'.index x old })

        store_demoted : List ℕ → M (Lru R) (Unit {0})
        store_demoted entries = unwrap (get_elem? entries old) >>= store_index entries

        swapped : swap new old lru.entries ≡ some (set (set lru.entries new node) old a)
        swapped = rw (e, swap, h.held)

    pub demoted-IsHeld : IsHeld (demoted node a new old lru) node new
    demoted-IsHeld = record {
      held = at_new;
      points = λ i x n g. elim (ℕ_discrete i old) [
        | yes same ↦
            let is_a : x ≡ a =
              some-injective
                (sym g ∙ ap (get_elem? (set (set lru.entries new node) old a)) same ∙ at_old) in
            (
              if_pos (ℕ_discrete x a) is_a _ _ ∙ sym same,
              λ s. (h.points new a ne e).1 (sym is_a ∙ s),
            )
        | no m ↦
            let (to, other) = h.points i x m (sym (elsewhere i m n) ∙ g) in
            (
              if_neg (ℕ_discrete x a) (λ s. n (sym to ∙ ap lru.index s ∙ (h.points new a ne e).0)) _
                    _
                  ∙ to,
              other,
            )
      ];
      finds = λ x n. elim (ℕ_discrete x a) [
        | yes same ↦ inr (
            ap (get_elem? (set (set lru.entries new node) old a)) (if_pos (ℕ_discrete x a) same _ _)
            ∙ at_old
            ∙ ap some (sym same))
        | no m ↦
            let same : store lru.index a old x ≡ lru.index x = if_neg (ℕ_discrete x a) m _ _ in
            (elim (h.finds x n) [
              | inl out ↦ inl (same ∙ out)
              | inr g ↦ inr (
                  ap (get_elem? (set (set lru.entries new node) old a)) same
                  ∙ elsewhere (lru.index x)
                      (λ s. n (some-injective (sym g ∙ ap (get_elem? lru.entries) s ∙ h.held)))
                      (λ s. m (some-injective (sym g ∙ ap (get_elem? lru.entries) s ∙ e)))
                  ∙ g)
            ])
      ];
    }

    pub demoted-IsReordered : IsZoned lru → IsReordered node lru (demoted node a new old lru)
    demoted-IsReordered z = record {
      quick = refl;
      green = refl;
      yellow = refl;
      red = refl;
      size = length-set (set lru.entries new node) old a ∙ length-set lru.entries new node;
      members = λ x n. elim (ℕ_discrete x a) [
        | yes same ↦
            subst (λ t. is_in_lru (demoted node a new old lru) t ≡ is_in_lru lru t) (sym same) of_a
        | no m ↦ ap (λ t. not (t == usize_max)) (if_neg (ℕ_discrete x a) m _ _)
      ];
    }
      where
        inside : (i x : ℕ) → get_elem? lru.entries i ≡ some x → i < usize_max
        inside i x g = omega (arith, get_elem?-below lru.entries i g, z.fits, z.bounded)

        of_a : is_in_lru (demoted node a new old lru) a ≡ is_in_lru lru a
        of_a =
            ap (λ t. not (t == usize_max)) (if_pos (ℕ_discrete a a) refl _ _)
            ∙ ground (arith, inside old node h.held, inside new a e)
            ∙ ap (λ t. not (t == usize_max)) (sym (h.points new a ne e).0)
