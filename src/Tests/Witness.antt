-- ===== src/Tests/Witness.antt =====
-- The theorems at concrete inputs.
use salsa.Base.{
  ◌≤◌, ℕ, suc, ◌≡◌, refl, ◌⊎◌, inl, inr, ◌↔◌, true, none, some, List, [], ◌∷◌, arith, ite, if_pos,
  if_neg, sym, ap, ◌∙◌, ℕ_discrete, subst,
}
use salsa.Base.Outcome.{Outcome, returns, panics}
use salsa.Durability.{low, high, max_durability}
use salsa.Key.{DatabaseKey, input, derived, DatabaseKey-discrete}
use salsa.Sweep.{default, discard_outdated, outdated}
use salsa.Runtime.ActiveQuery.{new}
use salsa.Runtime.ActiveQuery.Summary
use salsa.Runtime.ActiveQuery.Summary.{apply_all, least, latest, any_untracked}
use salsa.Runtime.Revisions
use salsa.Runtime.Revisions.{Revisions, increment, mark_durability_as_changed}
use salsa.Runtime.Revisions.Declining
use salsa.Runtime.Graph.{Graph, add_edge, insert_edge, remove_edge, refused, added}
use salsa.Runtime.Graph.Acyclic
use salsa.Runtime.Graph.Acyclic.{Ends, running, waiting, IsAcyclic, Avoids}
use salsa.Runtime.Graph.Labels
use salsa.Runtime.Graph.Labels.{IsLabelled, IsCleared, Listed, IsDistinct}
use salsa.Derived.Memo.{
  Memo, StampedValue, QueryState, memoized, tracked, untracked, has_untracked_input,
}
use salsa.Derived.Slot.{sweep}
use salsa.Derived.Slot.Builders
use salsa.Derived.Slot.Builders.{build, strongest_if, strongest_what, to_values, of_all}
use salsa.Derived.Slot.Collect
use salsa.Derived.Slot.Collect.{KeepsMemo}
use salsa.Database.State.{write_state}
use salsa.Database.Read.{Fetched, calls, read}
use salsa.Database.Write.{set, permits_increment}
use salsa.Database.Balance.{IsBalanced}
use salsa.Database.Balance.Calls
use salsa.Database.Panic
use salsa.Database.Set
use salsa.Database.Set.{IsWritten}
use salsa.Tests.Sample.{Db, config, empty}

-- A database in revision 3, whose high durability last changed in revision 2.
abbrev later_counters : Revisions
later_counters = record { pending_revision = 3; revisions = 3 ∷ 2 ∷ 2 ∷ [] }

abbrev high_memo : Memo ℕ
high_memo = record {
  value = some 20;
  verified_at = 2;
  changed_at = 2;
  durability = high;
  inputs = tracked (input 2 ∷ []);
}

abbrev later : Db
later = record empty {
  runtime = record (empty.runtime) { counters = later_counters };
  slots = λ k. memoized high_memo;
}

later_counters-IsValid : Declining.IsValid later_counters
later_counters-IsValid = record { settled = (refl, omega arith); started = omega arith }

increment_lem_example :
    (s' : Revisions) × (increment later_counters ≡ (s', some 4))
    × Declining.IsValid s'
    × (s'.pending_revision ≡ 4)
    × ((e : ℕ)
        → Revisions.last_changed_revision (suc e) s'
          ≡ Revisions.last_changed_revision (suc e) later_counters)
increment_lem_example = Declining.increment_lem later_counters later_counters-IsValid (omega arith)

last_changed-mark_example :
    Revisions.last_changed_revision 1 (mark_durability_as_changed 4 2 later_counters) ≡ some 4
unfolding Revisions.last_changed_revision
last_changed-mark_example = Declining.last_changed-mark later_counters 4 2 1

mark-IsValid_example : Declining.IsValid (mark_durability_as_changed 3 2 later_counters)
mark-IsValid_example = Declining.mark-IsValid later_counters 2 later_counters-IsValid

set-IsWritten_example :
    (db' : Db) × (set 0 7 low later ≡ returns tt db') × IsWritten 0 7 low 4 later db'
unfolding permits_increment
set-IsWritten_example = Set.set-IsWritten 0 7 low later later_counters-IsValid (omega arith) refl

-- The query 4 crashes; its slot held a memo of an older revision, which the crash leaves there.
abbrev crashing : Db
crashing = write_state 4 (memoized (record high_memo { verified_at = 1; inputs = untracked })) later

abbrev crashed : Outcome Db (Fetched (StampedValue ℕ)) → Db
crashed (panics db) = db
crashed _ = empty

abbrev after_crash : Db
after_crash = crashed (read config (calls config 1) 4 crashing)

calls-IsBalanced_example :
    IsBalanced crashing crashing ((calls config 1).get (derived 4) crashing)
    × IsBalanced crashing crashing ((calls config 1).maybe_changed_since (derived 4) 2 crashing)
calls-IsBalanced_example = Calls.calls-IsBalanced config 1 (derived 4) 2 crashing

abbrev volatile_memo : Memo ℕ
volatile_memo = record high_memo { verified_at = 3; inputs = untracked }

sweep_lem_example :
    (state : QueryState ℕ) × (sweep 3 discard_outdated (memoized volatile_memo) ≡ some state)
    × KeepsMemo volatile_memo state
    × (◌≡◌ {A = ℕ} 3 3
        → (discard_outdated.discard_if ≡ outdated) ⊎ (has_untracked_input volatile_memo ≡ true)
        → state ≡ memoized volatile_memo)
unfolding discard_outdated
sweep_lem_example =
    Collect.sweep_lem 3 discard_outdated volatile_memo (λ e. cc) (λ e. cc) (omega arith)

abbrev reports : List Summary.Report
reports = Summary.read (input 0) high 2 ∷ Summary.anon_read 3 ∷ Summary.read (derived 1) low 1 ∷ []

apply_all-new_example :
    let q = apply_all reports (new (derived 5) max_durability) in
    (q.durability ≡ least reports)
    × (q.changed_at ≡ latest reports)
    × ((q.dependencies ≡ none) ↔ (any_untracked reports ≡ true))
apply_all-new_example = Summary.apply_all-new 3 (derived 5) reports (omega arith) (omega arith)

-- Runtime 1 waits for runtime 2 on the query 7.
abbrev waits : Graph
waits = record {
  edges = λ p. ite (ℕ_discrete p 1) (some 2) none;
  labels = λ k. ite (DatabaseKey-discrete k (derived 7)) (1 ∷ []) [];
}

unfoldable waits-IsAcyclic : IsAcyclic waits
unfolding ℕ_discrete
waits-IsAcyclic p = elim (ℕ_discrete p 1) [
  | yes e ↦ waiting 2 (if_pos (ℕ_discrete p 1) e _ _) (running refl)
  | no n ↦ running (if_neg (ℕ_discrete p 1) n _ _)
]

abbrev owner : DatabaseKey → ℕ
owner k = ite (DatabaseKey-discrete k (derived 8)) 3 2

waits-IsLabelled : IsLabelled owner waits
unfolding ℕ_discrete DatabaseKey-discrete
waits-IsLabelled = record {
  waits = λ k p l. elim (DatabaseKey-discrete k (derived 7)) [
    | yes e ↦
        let l' = subst (Listed p) (if_pos (DatabaseKey-discrete k (derived 7)) e _ _) l in
        elim l' [
          | inl same ↦ ap waits.edges same ∙ ap (λ t. some (owner t)) (sym e)
          | inr m ↦ elim m [ ]
        ]
    | no n ↦ elim (subst (Listed p) (if_neg (DatabaseKey-discrete k (derived 7)) n _ _) l) [ ]
  ];
  named = λ p to e. (
    derived 7,
    elim (ℕ_discrete p 1) [
      | yes same ↦ inl same
      | no n ↦ cc (sym (if_neg (ℕ_discrete p 1) n _ _) ∙ e)
    ],
  );
  distinct = λ k. elim (DatabaseKey-discrete k (derived 7)) [
    | yes e ↦
        subst IsDistinct (sym (if_pos (DatabaseKey-discrete k (derived 7)) e _ _)) (λ m. m, tt)
    | no n ↦ subst IsDistinct (sym (if_neg (DatabaseKey-discrete k (derived 7)) n _ _)) tt
  ];
  once = λ k k' p l l'. named k p l ∙ sym (named k' p l');
}
  where
    named : (k : DatabaseKey) (p : ℕ) → Listed p (waits.labels k) → k ≡ derived 7
    named k p l = elim (DatabaseKey-discrete k (derived 7)) [
      | yes e ↦ e
      | no n ↦ elim (subst (Listed p) (if_neg (DatabaseKey-discrete k (derived 7)) n _ _) l) [ ]
    ]

-- The runtime 2 asks for a query of the runtime 3.
add_edge-IsAcyclic_example :
    ((add_edge 2 waits 2 (derived 8) 3 ≡ refused) × (¬ Avoids 2 (waits-IsAcyclic 3)))
    ⊎ ((add_edge 2 waits 2 (derived 8) 3 ≡ added (insert_edge waits 2 (derived 8) 3))
        × IsAcyclic (insert_edge waits 2 (derived 8) 3))
unfolding waits-IsAcyclic ℕ_discrete
add_edge-IsAcyclic_example =
    Acyclic.add_edge-IsAcyclic waits 2 (derived 8) 3 2 waits-IsAcyclic refl (omega arith)
      (omega arith)

insert_edge-IsLabelled_example :
    IsLabelled owner (insert_edge waits 2 (derived 8) (owner (derived 8)))
unfolding ℕ_discrete
insert_edge-IsLabelled_example =
    Labels.insert_edge-IsLabelled owner waits waits-IsLabelled (derived 8) 2 refl

remove_edge_lem_example :
    (g' : Graph) × (remove_edge waits (derived 7) (owner (derived 7)) ≡ some g')
    × IsCleared (waits.labels (derived 7)) waits.edges g'.edges
    × IsLabelled owner g'
    × IsAcyclic g'
remove_edge_lem_example =
    Labels.remove_edge_lem owner waits waits-IsLabelled (derived 7) waits-IsAcyclic

sweep-build_example :
    (strongest_if (to_values ∷ of_all ∷ []) ≡ 0
      → sweep 3 (build (to_values ∷ of_all ∷ []) default) (memoized high_memo) ≡ none)
    × (1 ≤ strongest_if (to_values ∷ of_all ∷ [])
        → 1 ≤ strongest_what (to_values ∷ of_all ∷ [])
        → (state : QueryState ℕ) × (sweep 3
              (build (to_values ∷ of_all ∷ []) default)
              (memoized high_memo)
            ≡ some state)
          × KeepsMemo high_memo state)
sweep-build_example = Builders.sweep-build 3 (to_values ∷ of_all ∷ []) high_memo (omega arith)
