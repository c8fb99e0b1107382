-- ===== src/Runtime/LocalState.antt =====
-- src/runtime/local_state.rs: the stack of active queries of one runtime.
use salsa.Base.{
  ℕ, Bool, true, false, Option, none, some, List, [], ◌∷◌, ◌==◌, if◌then◌else◌, length,
}
use salsa.Revision.{Revision}
use salsa.Durability.{Durability}
use salsa.Key.{DatabaseKey}
use salsa.Runtime.ActiveQuery.{ActiveQuery, new, add_read, add_untracked_read, add_anon_read}

-- `LocalState`: the head of the list is the end of the vector.
abbrev pub LocalState : Type 0
LocalState = List ActiveQuery

-- `ActiveQueryGuard`: the length of the stack just after the push.
pub record ActiveQueryGuard : Type 0 where
  pub push_len : ℕ

unfoldable pub push_query : DatabaseKey → Durability → LocalState → LocalState × ActiveQueryGuard
unfolding new
push_query key max_durability stack =
    let stack' = new key max_durability ∷ stack in (stack', record { push_len = length stack' })

-- `ActiveQueryGuard::pop_helper`; `none` stands for its two panics, an unbalanced stack and an
-- empty one.
unfoldable pub pop_helper : ActiveQueryGuard → LocalState → Option (ActiveQuery × LocalState)
pop_helper guard [] = none
pop_helper guard (q ∷ stack) =
    if length (q ∷ stack) == guard.push_len then some (q, stack) else none

unfoldable pub query_in_progress : LocalState → Bool
query_in_progress [] = false
query_in_progress (q ∷ stack) = true

unfoldable pub active_query : LocalState → Option DatabaseKey
active_query [] = none
active_query (q ∷ stack) = some q.database_key

-- A change of the query on top; without one nothing is recorded.
abbrev pub with_top : (ActiveQuery → ActiveQuery) → LocalState → LocalState
with_top f [] = []
with_top f (q ∷ stack) = f q ∷ stack

unfoldable pub report_query_read : DatabaseKey → Durability → Revision → LocalState → LocalState
unfolding add_read
report_query_read dependency durability changed_at =
    with_top (add_read dependency durability changed_at)

unfoldable pub report_untracked_read : Revision → LocalState → LocalState
unfolding add_untracked_read
report_untracked_read current_revision = with_top (add_untracked_read current_revision)

unfoldable pub report_anon_read : Revision → LocalState → LocalState
unfolding add_anon_read
report_anon_read revision = with_top (add_anon_read revision)
