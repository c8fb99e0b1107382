-- ===== src/Database/Balance/Read.antt =====
-- Reading a query puts a placeholder into its slot and takes it out again, also when the query
-- panics: `Slot::read_upgrade` and the `PanicGuard` of src/derived/slot.rs.
use salsa.Base.{
  ℕ, ◌≡◌, refl, sym, ◌∙◌, ap, subst, Bool, true, Option, none, some, [], arith, if◌then◌else◌,
  if_pos, if_neg, ℕ_discrete, ◌==◌, some-injective,
}
use salsa.Base.Outcome.{Outcome, returns, and_then, pure, panic, clean_up, ◌>>=◌, ◌>>◌}
use salsa.Revision.{Revision}
use salsa.Key.{derived}
use salsa.Derived.Memo.{
  StampedValue, Memo, QueryState, not_computed, in_progress, memoized, in_progress_by, restored,
}
use salsa.Database.Program.{Config}
use salsa.Database.State.{Database, did_validate_memoized_value, write_state, emit}
use salsa.Database.Calls.{Calls}
use salsa.Database.Execute.{recompute}
use salsa.Database.Read.{
  take_memo, check_placeholder, overwrite_placeholder, proceed, validate, settle, refresh_from,
  refresh,
}
use salsa.Database.Balance.{
  owner, Kept, IsBalanced, returned, Keeps, weaken, and_then-IsBalanced, clean_up-IsBalanced,
  pure-Keeps,
}
use salsa.Database.Balance.Run.{CallsKeep, validate_memoized_value-Keeps}
use salsa.Database.Balance.Execute.{recompute-Keeps}

module _ {V : Type 0} where
  owner-restored : (memo : Option (Memo V)) → owner (restored memo) ≡ none
  unfolding restored
  owner-restored none = refl
  owner-restored (some m) = refl

module _ {V L : Type 0} where
  check_placeholder-returns :
      (state : QueryState V) (t : Database V L)
      → owner state ≡ some t.runtime.id
      → check_placeholder state t ≡ returns tt t
  unfolding check_placeholder
  check_placeholder-returns (in_progress id waiting) t e =
      ap (λ (b : Bool). if b then pure tt t else panic t) own
    where
      same : id ≡ t.runtime.id
      same = some-injective e

      own : (id == t.runtime.id) ≡ true
      own = ground arith
  check_placeholder-returns not_computed t e = cc
  check_placeholder-returns (memoized m) t e = cc

  -- A slot without a placeholder gets one.
  module _ (k : ℕ) (s : Database V L) (idle : owner (s.slots k) ≡ none) where
    abbrev placed : Database V L
    placed = write_state k (in_progress s.runtime.id []) s

    mine : (t : Database V L) → Kept placed t → owner (t.slots k) ≡ some t.runtime.id
    mine t kept =
        kept.same_owners k
        ∙ ap owner (if_pos (ℕ_discrete k k) refl _ _)
        ∙ ap some (sym kept.same_id)

    -- The placeholder is taken out.
    cleared-Kept :
        (memo : Option (Memo V)) (t : Database V L)
        → Kept placed t
        → Kept s (write_state k (restored memo) t)
    cleared-Kept memo t kept = record {
      same_id = kept.same_id;
      same_length = kept.same_length;
      same_owners = λ j. elim (ℕ_discrete j k) [
        | yes e ↦
            ap owner (if_pos (ℕ_discrete j k) e _ _)
            ∙ owner-restored memo
            ∙ sym idle
            ∙ ap (λ i. owner (s.slots i)) (sym e)
        | no n ↦
            ap owner (if_neg (ℕ_discrete j k) n _ _)
            ∙ kept.same_owners j
            ∙ ap owner (if_neg (ℕ_discrete j k) n _ _)
      ];
    }

    overwrite_placeholder-returns :
        (memo : Option (Memo V)) (t : Database V L)
        → Kept placed t
        → overwrite_placeholder k memo t ≡ returns tt (write_state k (restored memo) t)
    unfolding overwrite_placeholder
    overwrite_placeholder-returns memo t kept =
        check_placeholder-returns (t.slots k) (write_state k (restored memo) t) (mine t kept)

    clears :
        (memo : Option (Memo V)) (t : Database V L)
        → Kept placed t
        → (s' : Database V L) × (overwrite_placeholder k memo t ≡ returns tt s') × Kept s s'
    clears memo t kept = (
      write_state k (restored memo) t,
      overwrite_placeholder-returns memo t kept,
      cleared-Kept memo t kept,
    )

    proceed-IsBalanced :
        (memo : Memo V) (value : StampedValue V) (t : Database V L)
        → Kept placed t
        → IsBalanced s placed ((proceed k memo >> pure value) t)
    unfolding proceed
    proceed-IsBalanced memo value t kept =
        let (s', run, after) = clears (some memo) t kept in
        subst (IsBalanced s placed)
          (ap (λ o. and_then (clean_up (overwrite_placeholder k none) o) (λ _. pure value))
            (sym run))
          (returned after)

    module _ (config : Config V L) (calls : Calls V L) (keep : CallsKeep calls)
        (now : Revision) where
      validate-Keeps : (old : Option (Memo V)) → Keeps (validate config calls now old)
      unfolding validate
      validate-Keeps none = pure-Keeps none
      validate-Keeps (some memo) = validate_memoized_value-Keeps calls keep now memo

      settle-IsBalanced :
          (old : Option (Memo V)) (validated : Option (StampedValue V × Memo V)) (t : Database V L)
          → Kept placed t
          → IsBalanced s placed (settle config calls k now old validated t)
      unfolding settle
      settle-IsBalanced old (some (value, memo)) t kept =
          proceed-IsBalanced memo value (emit (did_validate_memoized_value (derived k)) t) (record {
            same_id = kept.same_id;
            same_length = kept.same_length;
            same_owners = kept.same_owners;
          })
      settle-IsBalanced old none t kept =
          and_then-IsBalanced (recompute config calls k now old t) (λ p. proceed k p.1 >> pure p.0)
            (weaken _ kept kept ((recompute-Keeps config calls keep k now old).balanced t))
            (λ p t' later. proceed-IsBalanced p.1 p.0 t' later)

      refresh_from-IsBalanced :
          (old : Option (Memo V)) → IsBalanced s s (refresh_from config calls k now old placed)
      unfolding refresh_from
      refresh_from-IsBalanced old =
          clean_up-IsBalanced (overwrite_placeholder k old)
            (and_then (validate config calls now old placed) (settle config calls k now old))
            (and_then-IsBalanced (validate config calls now old placed)
              (settle config calls k now old) ((validate-Keeps old).balanced placed)
              (settle-IsBalanced old))
            (clears old)

      -- The read behind the probe.
      pub refresh-IsBalanced : IsBalanced s s (refresh config calls k now s)
      unfolding refresh take_memo in_progress_by
      refresh-IsBalanced = go (s.slots k) refl
        where
          taken : QueryState V → Outcome (Database V L) (StampedValue V)
          taken state = (take_memo state >>= refresh_from config calls k now) placed

          go :
              (state : QueryState V)
              → s.slots k ≡ state
              → IsBalanced s s (refresh config calls k now s)
          go not_computed e =
              subst (IsBalanced s s) (ap taken (sym e)) (refresh_from-IsBalanced none)
          go (memoized memo) e =
              subst (IsBalanced s s) (ap taken (sym e)) (refresh_from-IsBalanced (some memo))
          go (in_progress id waiting) e = cc
