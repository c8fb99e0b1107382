-- ===== src/Lru.antt =====
-- `Lru` of src/lru.rs: which nodes may keep a value. Nodes are numbered.
pub mod Index
pub mod Promote
pub mod Displace
pub mod Use
pub mod Capacity
use salsa.Base.{
  ℕ, zero, suc, ◌+◌, ◌-◌, ◌/◌, ◌^◌, ◌≡◌, Bool, true, false, not, Option, none, some, List, [], ◌∷◌,
  ◌++◌, min, max, ltb, leb, ◌==◌, if◌then◌else◌, length, get_elem?, set, ite, ℕ_discrete,
}
use salsa.Base.Outcome.{Outcome, out_of_fuel, M, ◌>>=◌, ◌>>◌, pure, gets, modify, unwrap, panic}

-- `std::usize::MAX` for a 64-bit target: the index of a node that is in no list.
abbrev pub usize_max : ℕ
usize_max = 2 ^ 64 - 1

-- `Lru` with its `LruData`; `index` holds the `LruIndex` of every node, and `rng` the state of the
-- generator.
pub record Lru (R : Type 0) : Type 0 where
  pub green_zone : ℕ
  pub end_red_zone : ℕ
  pub end_yellow_zone : ℕ
  pub end_green_zone : ℕ
  pub rng : R
  pub entries : List ℕ
  pub index : ℕ → ℕ

-- `LruIndex::store` for one node.
abbrev pub store : (ℕ → ℕ) → ℕ → ℕ → ℕ → ℕ
store index node value x = ite (ℕ_discrete x node) value (index x)

-- The greatest capacity of a vector of `Arc`s, of 8 bytes each: they take at most `isize::MAX` bytes.
abbrev pub max_entries : ℕ
max_entries = (2 ^ 63 - 1) / 8

-- `clear` for each node of a list.
unfoldable pub clear_all : List ℕ → (ℕ → ℕ) → ℕ → ℕ
clear_all [] index = index
clear_all (x ∷ xs) index = clear_all xs (store index x usize_max)

-- `slice::swap`; `none` stands for a panic.
unfoldable pub swap : ℕ → ℕ → List ℕ → Option (List ℕ)
swap a b entries = elim (get_elem? entries a) [
  | none ↦ none
  | some x ↦ (elim (get_elem? entries b) [
    | none ↦ none
    | some y ↦ some (set (set entries a y) b x)
  ])
]

module _ {R : Type 0} where
  -- `Lru::with_seed`, with the generator that the seed gives.
  unfoldable pub with_rng : R → Lru R
  with_rng rng = record {
    green_zone = 0;
    end_red_zone = 0;
    end_yellow_zone = 0;
    end_green_zone = 0;
    rng = rng;
    entries = [];
    index = λ x. usize_max;
  }

  -- `LruIndex::is_in_lru`.
  abbrev pub is_in_lru : Lru R → ℕ → Bool
  is_in_lru lru node = not (lru.index node == usize_max)

  -- The zones that `LruData::resize` sets.
  abbrev pub set_zones : ℕ → ℕ → ℕ → Lru R → Lru R
  set_zones len_green_zone len_yellow_zone len_red_zone lru = record lru {
    end_green_zone = len_green_zone;
    end_yellow_zone = len_green_zone + len_yellow_zone;
    end_red_zone = len_green_zone + len_yellow_zone + len_red_zone;
  }

  -- The panic of `Vec::with_capacity`, called with the end of the red zone. There is always memory.
  abbrev pub check_capacity : M (Lru R) (Unit {0})
  check_capacity lru = if leb lru.end_red_zone max_entries then pure tt lru else panic lru

  -- `LruData::resize`: forgets all entries.
  unfoldable pub resize : ℕ → ℕ → ℕ → M (Lru R) (Unit {0})
  unfolding clear_all
  resize len_green_zone len_yellow_zone len_red_zone = do
    modify (set_zones len_green_zone len_yellow_zone len_red_zone)
    check_capacity
    modify (λ lru. record lru { entries = []; index = clear_all lru.entries lru.index })

  -- `Lru::set_lru_capacity`.
  unfoldable pub set_lru_capacity : ℕ → M (Lru R) (Unit {0})
  unfolding resize
  set_lru_capacity len lru =
      if len == 0
      then (do modify (λ lru. record lru { green_zone = 0 }); resize 0 0 0) lru
      else (let len' = max len 3 in
          let green_zone = max (len' / 10) 1 in
          let yellow_zone = max (len' / 5) 1 in
          (do
            modify (λ lru. record lru { green_zone = green_zone })
            resize green_zone yellow_zone (len' - yellow_zone - green_zone))
            lru)

  -- `self.entries.swap(new, old)`, and the store of the index of the node that came to `old`.
  unfoldable pub demote : ℕ → ℕ → M (Lru R) (Unit {0})
  unfolding swap
  demote new old = do
    entries ← gets (λ lru. lru.entries)
    swapped ← unwrap (swap new old entries)
    demoted ← unwrap (get_elem? swapped old)
    modify (λ lru. record lru { entries = swapped; index = store lru.index demoted old })

  -- The generator of the crate rand: `gen_range` of a state, where `none` is its panic.
  module _ (gen_range : ℕ → ℕ → R → Option (ℕ × R)) where
    -- `LruData::pick_index`.
    unfoldable pub pick_index : ℕ → ℕ → M (Lru R) ℕ
    pick_index first last = do
      lru ← gets (λ lru. lru)
      (picked, rng) ← unwrap (gen_range first (min last (length lru.entries)) lru.rng)
      modify (λ lru. record lru { rng = rng })
      pure picked

    unfoldable pub promote_yellow_to_green : ℕ → ℕ → M (Lru R) (Unit {0})
    unfolding pick_index demote
    promote_yellow_to_green node yellow_index = do
      last ← gets (λ lru. lru.end_green_zone)
      green_index ← pick_index 0 last
      demote green_index yellow_index
      modify (λ lru. record lru { index = store lru.index node green_index })

    unfoldable pub promote_red_to_green : ℕ → ℕ → M (Lru R) (Unit {0})
    unfolding pick_index demote promote_yellow_to_green
    promote_red_to_green node red_index = do
      first ← gets (λ lru. lru.end_green_zone)
      last ← gets (λ lru. lru.end_yellow_zone)
      yellow_index ← pick_index first last
      demote yellow_index red_index
      promote_yellow_to_green node yellow_index

    -- The end of `insert_new` where the list is full.
    unfoldable pub displace : ℕ → M (Lru R) (Option ℕ)
    unfolding pick_index promote_red_to_green
    displace node = do
      first ← gets (λ lru. lru.end_yellow_zone)
      last ← gets (λ lru. lru.end_red_zone)
      victim_index ← pick_index first last
      entries ← gets (λ lru. lru.entries)
      victim ← unwrap (get_elem? entries victim_index)
      modify (λ lru. record lru {
        entries = set entries victim_index node;
        index = store lru.index victim usize_max;
      })
      promote_red_to_green node victim_index
      pure (some victim)

    -- `LruData::record_use` of a node with that index; `insert_new` is for one that has none.
    unfoldable pub record_use_at : ℕ → ℕ → M (Lru R) (Option ℕ) → M (Lru R) (Option ℕ)
    unfolding promote_yellow_to_green promote_red_to_green
    record_use_at node index insert_new = do
      lru ← gets (λ lru. lru)
      if ltb index lru.end_green_zone
          then pure none
          else (if ltb index lru.end_yellow_zone
              then (do promote_yellow_to_green node index; pure none)
              else (if ltb index lru.end_red_zone
                  then (do promote_red_to_green node index; pure none)
                  else insert_new))

    -- `LruData::insert_new` calls `record_use` again once the node is in the list; the fuel counts
    -- these calls.
    unfoldable pub insert_new : ℕ → M (Lru R) (Option ℕ) → M (Lru R) (Option ℕ)
    unfolding displace
    insert_new node again = do
      lru ← gets (λ lru. lru)
      if ltb (length lru.entries) lru.end_red_zone
          then (do
            modify (λ lru. record lru {
              entries = lru.entries ++ node ∷ [];
              index = store lru.index node (length lru.entries);
            })
            again)
          else displace node

    -- `LruData::record_use`.
    unfoldable pub record_use_data : ℕ → ℕ → M (Lru R) (Option ℕ)
    unfolding record_use_at insert_new
    record_use_data zero node lru = out_of_fuel
    record_use_data (suc fuel) node lru =
        let again = record_use_data fuel node in
        record_use_at node (lru.index node) (insert_new node again) lru

    -- `Lru::record_use`.
    unfoldable pub record_use : ℕ → ℕ → M (Lru R) (Option ℕ)
    unfolding record_use_data
    record_use fuel node lru =
        if lru.green_zone == 0
        then pure none lru
        else (if ltb (lru.index node) lru.green_zone
            then pure none lru
            else record_use_data fuel node lru)
