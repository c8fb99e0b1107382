-- ===== src/Database/Balance/Execute.antt =====
-- Running a query pops its entry from the stack again, also when the query panics: the
-- `ActiveQueryGuard` of src/runtime/local_state.rs.
use salsa.Base.{
  ℕ, suc, ◌≡◌, refl, sym, ◌∙◌, ap, subst, Bool, true, Option, none, some, [], ◌∷◌, length, arith,
  if◌then◌else◌, leb, ◌==◌,
}
use salsa.Base.Outcome.{Outcome, returns, M, and_then, pure, unwrap, modify, ◌>>◌}
use salsa.Revision.{Revision}
use salsa.Durability.{max_durability}
use salsa.Key.{DatabaseKey, derived}
use salsa.Runtime.ActiveQuery.{ActiveQuery}
use salsa.Runtime.LocalState.{LocalState, ActiveQueryGuard, push_query, pop_helper}
use salsa.Derived.Memo.{Memo}
use salsa.Database.Program.{Config}
use salsa.Database.State.{Database, will_execute, with_stack, emit}
use salsa.Database.Calls.{Calls}
use salsa.Database.Execute.{
  ComputedQueryResult, drop_guard, complete, execute_query_implementation, can_backdate, backdate,
  recompute,
}
use salsa.Database.Balance.{
  Kept, IsBalanced, returned, Keeps, and_then-IsBalanced, clean_up-IsBalanced, bind-Keeps,
  pure-Keeps, panic-Keeps, if-Keeps,
}
use salsa.Database.Balance.Run.{CallsKeep, current_revision-Keeps, run_program-Keeps}

-- A stack as high as the guard found it is popped.
popped :
    (guard : ActiveQueryGuard) (n : ℕ) (stack : LocalState)
    → guard.push_len ≡ suc n
    → length stack ≡ suc n
    → (q : ActiveQuery) × (rest : LocalState) × (pop_helper guard stack ≡ some (q, rest))
      × (length rest ≡ n)
unfolding pop_helper
popped guard n [] e f = absurd (omega arith)
popped guard n (q ∷ stack) e f =
    (q, stack, ap (λ (b : Bool). if b then some (q, stack) else none) level, omega arith)
  where
    level : (length (q ∷ stack) == guard.push_len) ≡ true
    level = ground arith

module _ {V L : Type 0} (key : DatabaseKey) (s : Database V L) where
  abbrev stack_then : LocalState
  stack_then = s.runtime.local_state

  -- The database with the entry of the query.
  abbrev entered : LocalState → Database V L
  entered stack = with_stack stack (emit (will_execute key) s)

  left-Kept :
      (stack rest : LocalState) (t : Database V L)
      → Kept (entered stack) t
      → length rest ≡ length stack_then
      → Kept s (with_stack rest t)
  left-Kept stack rest t kept e = record {
    same_id = kept.same_id;
    same_length = e;
    same_owners = kept.same_owners;
  }

  module _ (guard : ActiveQueryGuard) (stack : LocalState)
      (level : guard.push_len ≡ suc (length stack_then))
      (pushed : length stack ≡ suc (length stack_then)) where
    drop_guard-returns :
        (t : Database V L)
        → Kept (entered stack) t
        → (s' : Database V L) × (drop_guard guard t ≡ returns tt s') × Kept s s'
    unfolding drop_guard
    drop_guard-returns t kept =
        let (q, rest, run, e) =
          popped guard (length stack_then) t.runtime.local_state level
            (kept.same_length ∙ pushed) in
        (with_stack rest t, ap after run, left-Kept stack rest t kept e)
      where
        after : Option (ActiveQuery × LocalState) → Outcome (Database V L) (Unit {0})
        after o = and_then (unwrap o t) (λ p. modify (with_stack p.1))

    complete-IsBalanced :
        (value : V) (t : Database V L)
        → Kept (entered stack) t
        → IsBalanced s (entered stack) (complete guard value t)
    unfolding complete
    complete-IsBalanced value t kept =
        let (q, rest, run, e) =
          popped guard (length stack_then) t.runtime.local_state level
            (kept.same_length ∙ pushed) in
        subst (IsBalanced s (entered stack)) (ap after (sym run))
          (returned (left-Kept stack rest t kept e))
      where
        after : Option (ActiveQuery × LocalState) → Outcome (Database V L) (ComputedQueryResult V)
        after o = and_then (unwrap o t) (λ p.
            modify (with_stack p.1)
            >> pure (record {
              value = value;
              durability = p.0.durability;
              changed_at = p.0.changed_at;
              dependencies = p.0.dependencies;
            }))

module _ {V L : Type 0} where
  execute_query_implementation-Keeps :
      (key : DatabaseKey) (execute : M (Database V L) V)
      → Keeps execute
      → Keeps (execute_query_implementation key execute)
  unfolding execute_query_implementation push_query
  execute_query_implementation-Keeps key execute h = record {
    balanced = λ s.
        let (stack, guard) = push_query key max_durability s.runtime.local_state in
        let inside = entered key s stack in
        clean_up-IsBalanced (drop_guard guard) (and_then (execute inside) (complete guard))
          (and_then-IsBalanced (execute inside) (complete guard) (h.balanced inside)
            (complete-IsBalanced key s guard stack refl refl))
          (drop_guard-returns key s guard stack refl refl);
  }

  module _ (config : Config V L) where
    backdate-Keeps :
        (old : Option (Memo V)) (result : ComputedQueryResult V)
        → Keeps (backdate config old result)
    unfolding backdate
    backdate-Keeps none result = pure-Keeps _
    backdate-Keeps (some old) result =
        if-Keeps (can_backdate config old result)
          (if-Keeps (leb old.changed_at result.changed_at) (pure-Keeps _) panic-Keeps)
          (pure-Keeps _)

    pub recompute-Keeps :
        (calls : Calls V L)
        → CallsKeep calls
        → (k : ℕ) (now : Revision) (old : Option (Memo V))
        → Keeps (recompute config calls k now old)
    unfolding recompute
    recompute-Keeps calls keep k now old =
        bind-Keeps
          (execute_query_implementation-Keeps (derived k) _
            (run_program-Keeps calls keep (config.execute k)))
          λ result. bind-Keeps current_revision-Keeps λ revision_then.
            if-Keeps (revision_then == now)
              (bind-Keeps (backdate-Keeps old result) λ changed_at. pure-Keeps _) panic-Keeps
