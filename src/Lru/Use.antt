-- ===== src/Lru/Use.antt =====
-- The use of a node: `record_use` of src/lru.rs.
use salsa.Base.{
  ℕ, suc, ◌≤◌, ◌<◌, ◌≡◌, refl, sym, ◌∙◌, ap, subst, inl, inr, not, Option, none, some, if_pos,
  if_neg, ◌==◌, ℕ_discrete, dec_lt, arith, length, get_elem?-below,
}
use salsa.Base.Outcome.{returns, M}
use salsa.Lru.{Lru, usize_max, record_use_at, insert_new, record_use_data, record_use}
use salsa.Lru.Index.{IsIndexed, IsZoned, IsZoned-reordered}
use salsa.Lru.Promote.{IsInRange, record_use_at-IsPromoted}
use salsa.Lru.Displace.{IsUsed, pushed, pushed-IsIndexed, pushed-IsZoned, displace-IsUsed}

module _ {R : Type 0} where
  out_of_list :
      (lru : Lru R) (node : ℕ)
      → IsIndexed lru
      → IsZoned lru
      → lru.end_red_zone ≤ lru.index node
      → lru.index node ≡ usize_max
  out_of_list lru node v z h = elim (v.finds node) [
    | inl out ↦ out
    | inr e ↦ absurd (omega (arith, get_elem?-below lru.entries (lru.index node) e, z.fits))
  ]

  module _ (gen_range : ℕ → ℕ → R → Option (ℕ × R)) (in_range : IsInRange gen_range) where
    record_use_at-new :
        (lru : Lru R) (node : ℕ) (insert : M (Lru R) (Option ℕ))
        → IsZoned lru
        → lru.end_red_zone ≤ lru.index node
        → record_use_at gen_range node (lru.index node) insert lru ≡ insert lru
    unfolding record_use_at
    record_use_at-new lru node insert z h = ground (arith, z.yellow, z.red)

    -- The node gets a place at the end of the list, and is used from there.
    push-IsUsed :
        (fuel : ℕ) (lru : Lru R) (node : ℕ)
        → IsIndexed lru
        → IsZoned lru
        → lru.index node ≡ usize_max
        → length lru.entries < lru.end_red_zone
        → (lru' : Lru R) × (record_use_data gen_range (suc fuel) node (pushed node lru)
            ≡ returns none lru')
          × IsUsed node lru none lru'
    unfolding record_use_data
    push-IsUsed fuel lru node v z out room =
        let zoned = pushed-IsZoned lru node z room in
        let (lru', run, p) =
          record_use_at-IsPromoted gen_range in_range (pushed node lru) node
            (insert_new gen_range node (record_use_data gen_range fuel node))
            (pushed-IsIndexed lru node v z out) zoned
            (subst (λ t. t < lru.end_red_zone) (sym (if_pos (ℕ_discrete node node) refl _ _))
              room) in
        (
          lru',
          run,
          record {
            indexed = p.indexed;
            zoned = IsZoned-reordered p.reordered zoned;
            capacity = p.reordered.red;
            green = p.used;
            displaced = λ x n.
                p.reordered.members x n
                ∙ ap (λ t. not (t == usize_max)) (if_neg (ℕ_discrete x node) n _ _);
          },
        )

    insert_new-IsUsed :
        (fuel : ℕ) (lru : Lru R) (node : ℕ)
        → IsIndexed lru
        → IsZoned lru
        → lru.index node ≡ usize_max
        → (victim : Option ℕ) × (lru' : Lru R) × (insert_new gen_range node
              (record_use_data gen_range (suc fuel) node)
              lru
            ≡ returns victim lru')
          × IsUsed node lru victim lru'
    unfolding insert_new
    insert_new-IsUsed fuel lru node v z out = elim (dec_lt (length lru.entries) lru.end_red_zone) [
      | yes room ↦
          let (lru', run, used) = push-IsUsed fuel lru node v z out room in
          (none, lru', ground (arith, run), used)
      | no full ↦
          let (victim, lru', run, used) =
            displace-IsUsed gen_range in_range lru node v z out (omega (arith, z.fits)) in
          (some victim, lru', ground (arith, run), used)
    ]

    record_use_data-IsUsed :
        (fuel : ℕ) (lru : Lru R) (node : ℕ)
        → IsIndexed lru
        → IsZoned lru
        → (victim : Option ℕ) × (lru' : Lru R) × (record_use_data gen_range
              (suc (suc fuel))
              node
              lru
            ≡ returns victim lru')
          × IsUsed node lru victim lru'
    unfolding record_use_data
    record_use_data-IsUsed fuel lru node v z =
        let insert = insert_new gen_range node (record_use_data gen_range (suc fuel) node) in
        elim (dec_lt (lru.index node) lru.end_red_zone) [
          | yes inside ↦
              let (lru', run, p) =
                record_use_at-IsPromoted gen_range in_range lru node insert v z inside in
              (
                none,
                lru',
                run,
                record {
                  indexed = p.indexed;
                  zoned = IsZoned-reordered p.reordered z;
                  capacity = p.reordered.red;
                  green = p.used;
                  displaced = p.reordered.members;
                },
              )
          | no outside ↦
              let out = out_of_list lru node v z (omega arith) in
              let (victim, lru', run, used) = insert_new-IsUsed fuel lru node v z out in
              (victim, lru', record_use_at-new lru node insert z (omega arith) ∙ run, used)
        ]

    -- A use of a node, in a list that is switched on, returns: `record_use` calls itself at most
    -- once more. The list stays indexed and within its capacity, and the node is in its green zone.
    -- A node is displaced only from the red zone of a full list, for a node that was not in it; all
    -- others stay.
    pub record_use-IsUsed :
        (fuel : ℕ) (lru : Lru R) (node : ℕ)
        → IsIndexed lru
        → IsZoned lru
        → (victim : Option ℕ) × (lru' : Lru R) × (record_use gen_range (suc (suc fuel)) node lru
            ≡ returns victim lru')
          × IsUsed node lru victim lru'
    unfolding record_use
    record_use-IsUsed fuel lru node v z = elim (dec_lt (lru.index node) lru.green_zone) [
      | yes green ↦ (
        none,
        lru,
        ground arith,
        record {
          indexed = v;
          zoned = z;
          capacity = refl;
          green = omega (arith, z.quick);
          displaced = λ x n. refl;
        },
      )
      | no n ↦
          let (victim, lru', run, used) = record_use_data-IsUsed fuel lru node v z in
          (victim, lru', ground (arith, run, z.quick, z.green), used)
    ]
