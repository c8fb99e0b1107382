-- ===== src/Runtime/ActiveQuery/Summary.antt =====
-- What an active query knows after any reads: the bounds that it collects.
use salsa.Base.{
  ◌≤◌, ◌≡◌, refl, Bool, true, false, none, some, List, [], ◌∷◌, arith, min, max, ◌||◌, ◌↔◌,
}
use salsa.Revision.{Revision, start}
use salsa.Durability.{Durability, low, max_durability}
use salsa.Key.{DatabaseKey}
use salsa.Runtime.ActiveQuery.{
  ActiveQuery, new, insert, insert_into, add_read, add_untracked_read, add_anon_read,
}

-- One report of the runtime to the active query.
pub data Report : Type 0 where
  read : DatabaseKey → Durability → Revision → Report
  untracked_read : Revision → Report
  anon_read : Revision → Report

pub apply : Report → ActiveQuery → ActiveQuery
unfolding add_read add_untracked_read add_anon_read
apply (read key d r) q = add_read key d r q
apply (untracked_read r) q = add_untracked_read r q
apply (anon_read r) q = add_anon_read r q

pub apply_all : List Report → ActiveQuery → ActiveQuery
apply_all [] q = q
apply_all (x ∷ xs) q = apply_all xs (apply x q)

abbrev pub durability_of : Report → Durability
durability_of (read key d r) = d
durability_of (untracked_read r) = low
durability_of (anon_read r) = max_durability

abbrev pub revision_of : Report → Revision
revision_of (read key d r) = r
revision_of (untracked_read r) = r
revision_of (anon_read r) = r

-- The revision of an untracked read is the current one, and no report is of a later one.
abbrev pub AreReports : Revision → List Report → Type 0
AreReports now [] = Unit {0}
AreReports now (untracked_read r ∷ xs) = (r ≡ now) × AreReports now xs
AreReports now (x ∷ xs) = (revision_of x ≤ now) × AreReports now xs

-- The least durability, the last revision, and whether a report is of an untracked read.
abbrev pub least : List Report → Durability
least [] = max_durability
least (x ∷ xs) = min (durability_of x) (least xs)

abbrev pub latest : List Report → Revision
latest [] = start
latest (x ∷ xs) = max (revision_of x) (latest xs)

abbrev pub is_untracked : Report → Bool
is_untracked (untracked_read r) = true
is_untracked _ = false

abbrev pub any_untracked : List Report → Bool
any_untracked [] = false
any_untracked (x ∷ xs) = is_untracked x || any_untracked xs

durability-apply_all :
    (xs : List Report) (q : ActiveQuery)
    → q.durability ≤ max_durability
    → (apply_all xs q).durability ≡ min q.durability (least xs)
unfolding apply_all apply
durability-apply_all [] q h = omega arith
durability-apply_all (read key e r ∷ xs) q h =
    omega (arith, durability-apply_all xs (add_read key e r q) (omega arith))
durability-apply_all (untracked_read r ∷ xs) q h =
    omega (arith, durability-apply_all xs (add_untracked_read r q) (omega arith))
durability-apply_all (anon_read r ∷ xs) q h =
    omega (arith, durability-apply_all xs (add_anon_read r q) (omega arith))

untracked_stays :
    (xs : List Report) (q : ActiveQuery)
    → q.dependencies ≡ none
    → (apply_all xs q).dependencies ≡ none
unfolding apply_all apply insert_into
untracked_stays [] q h = h
untracked_stays (read key e r ∷ xs) q h = untracked_stays xs (add_read key e r q) (ground arith)
untracked_stays (untracked_read r ∷ xs) q h = untracked_stays xs (add_untracked_read r q) refl
untracked_stays (anon_read r ∷ xs) q h = untracked_stays xs (add_anon_read r q) h

dependencies-apply_all :
    (xs : List Report) (q : ActiveQuery) (ds : List DatabaseKey)
    → q.dependencies ≡ some ds
    → ((apply_all xs q).dependencies ≡ none) ↔ (any_untracked xs ≡ true)
unfolding apply_all apply insert_into
dependencies-apply_all [] q ds h = (λ e. cc, λ e. cc)
dependencies-apply_all (read key e r ∷ xs) q ds h =
    dependencies-apply_all xs (add_read key e r q) (insert key ds) (rw h)
dependencies-apply_all (untracked_read r ∷ xs) q ds h =
    (λ _. refl, λ _. untracked_stays xs (add_untracked_read r q) refl)
dependencies-apply_all (anon_read r ∷ xs) q ds h =
    dependencies-apply_all xs (add_anon_read r q) ds h

changed_at-apply_all :
    (now : Revision) (xs : List Report) (q : ActiveQuery)
    → AreReports now xs
    → start ≤ q.changed_at
    → q.changed_at ≤ now
    → (apply_all xs q).changed_at ≡ max q.changed_at (latest xs)
unfolding apply_all apply
changed_at-apply_all now [] q h b c = omega arith
changed_at-apply_all now (read key e r ∷ xs) q h b c =
    omega (arith, changed_at-apply_all now xs (add_read key e r q) h.1 (omega arith) (omega arith))
changed_at-apply_all now (untracked_read r ∷ xs) q h b c =
    omega
      (arith, changed_at-apply_all now xs (add_untracked_read r q) h.1 (omega arith) (omega arith))
changed_at-apply_all now (anon_read r ∷ xs) q h b c =
    omega (arith, changed_at-apply_all now xs (add_anon_read r q) h.1 (omega arith) (omega arith))

-- After any reports a query that began with `new` has the least durability and the last revision
-- of all of them, and has dropped its set of dependencies exactly if one was an untracked read.
pub apply_all-new :
    (now : Revision) (key : DatabaseKey) (xs : List Report)
    → start ≤ now
    → AreReports now xs
    → let q = apply_all xs (new key max_durability) in
      (q.durability ≡ least xs)
      × (q.changed_at ≡ latest xs)
      × ((q.dependencies ≡ none) ↔ (any_untracked xs ≡ true))
unfolding new
apply_all-new now key xs h r = (
  omega (arith, durability-apply_all xs (new key max_durability) (omega arith), least-le xs),
  omega (
    arith,
    changed_at-apply_all now xs (new key max_durability) r (omega arith) h,
    start-le-latest xs,
  ),
  dependencies-apply_all xs (new key max_durability) [] refl,
)
  where
    least-le : (xs : List Report) → least xs ≤ max_durability
    least-le [] = omega arith
    least-le (x ∷ xs) = omega (arith, least-le xs)

    start-le-latest : (xs : List Report) → start ≤ latest xs
    start-le-latest [] = omega arith
    start-le-latest (x ∷ xs) = omega (arith, start-le-latest xs)
