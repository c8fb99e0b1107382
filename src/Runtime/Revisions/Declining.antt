-- ===== src/Runtime/Revisions/Declining.antt =====
-- The order of the revision counters: the invariant that the comment on the field `revisions` of
-- `SharedState` states, and what one write does to the counters.
use salsa.Base.{
  ℕ, zero, suc, ◌+◌, ◌≤◌, ◌<◌, ◌≡◌, refl, some, List, [], ◌∷◌, ltb, if◌then◌else◌, arith, get_elem?,
  ap, sym, subst, ◌&&◌, leb,
}
use mathlib.Core.Option
use salsa.Revision.{Revision, u64_mod, next, fetch_then_increment}
use salsa.Durability.{Durability, len}
use salsa.Runtime.Revisions.{
  Revisions, with_durabilities, last_changed_revision, store_upto, store_behind_first,
  mark_durability_as_changed, increment,
}

-- Each counter is at most the one in front of it, and all are at most `bound`.
abbrev pub Declining : ℕ → List ℕ → Type 0
Declining bound [] = Unit {0}
Declining bound (r ∷ rs) = (r ≤ bound) × Declining r rs

-- The counters between two writes: the pending revision is the current one, at the head.
abbrev pub Heads : ℕ → List ℕ → Type 0
Heads now [] = ⊥
Heads now (r ∷ rs) = (r ≡ now) × Declining now rs

pub record IsValid (s : Revisions) : Type 0 where
  pub settled : Heads s.pending_revision s.revisions
  pub started : 1 ≤ s.pending_revision

Declining-mono : {a b : ℕ} (rs : List ℕ) → a ≤ b → Declining a rs → Declining b rs
Declining-mono [] h d = tt
Declining-mono (r ∷ rs) h d = (omega arith, d.1)

store_upto-Declining :
    (d new : ℕ) (rs : List ℕ) (old : ℕ)
    → old ≤ new
    → Declining old rs
    → Declining new (store_upto d new rs)
unfolding store_upto
store_upto-Declining zero new rs old h v = Declining-mono {a = old} rs h v
store_upto-Declining (suc d) new [] old h v = tt
store_upto-Declining (suc d) new (r ∷ rs) old h v =
    (omega arith, store_upto-Declining d new rs r (omega arith) v.1)

-- The fresh database has declining counters, all at the first revision.
pub with_durabilities-IsValid : IsValid (with_durabilities len)
unfolding with_durabilities
with_durabilities-IsValid = omega arith

-- Marking a durability as changed in the current revision keeps the counters valid, the declining
-- order included.
pub mark-IsValid :
    (s : Revisions) (d : Durability)
    → IsValid s
    → IsValid (mark_durability_as_changed s.pending_revision d s)
unfolding mark_durability_as_changed store_behind_first
mark-IsValid s d v = go s.revisions v.settled
  where
    go :
        (rs : List ℕ)
        → Heads s.pending_revision rs
        → IsValid (record s { revisions = store_behind_first d s.pending_revision rs })
    go [] h = elim h [ ]
    go (r ∷ rs) h = record {
      settled =
          (h.0, store_upto-Declining d s.pending_revision rs s.pending_revision (omega arith) h.1);
      started = v.started;
    }

pub fetch_then_increment-inside :
    (v : ℕ) → 1 ≤ v → v + 1 < u64_mod → fetch_then_increment v ≡ (v + 1, some v)
unfolding fetch_then_increment
fetch_then_increment-inside v h k = ground arith

pub next-inside : (v : ℕ) → v + 1 < u64_mod → next v ≡ some (v + 1)
unfolding next
next-inside v h = ground arith

pub increment-at :
    (p : ℕ) (rs : List ℕ)
    → 1 ≤ p
    → p + 1 < u64_mod
    → increment (record { pending_revision = p; revisions = p ∷ rs })
      ≡ (record { pending_revision = p + 1; revisions = (p + 1) ∷ rs }, some (p + 1))
unfolding increment
increment-at p rs h k = ground (arith, fetch_then_increment-inside p h k, next-inside p k)

Heads-cons : (p : ℕ) (rs : List ℕ) → Heads p rs → (qs : List ℕ) × (rs ≡ p ∷ qs) × Declining p qs
Heads-cons p [] h = elim h [ ]
Heads-cons p (r ∷ qs) h = (qs, ap (λ t. t ∷ qs) h.0, h.1)

-- One increment of valid counters below the end of the range succeeds with the next revision, and
-- leaves valid counters behind: the pending and the current revision moved on by one, and the
-- counters of the higher durabilities stayed.
pub increment_lem :
    (s : Revisions)
    → IsValid s
    → s.pending_revision + 1 < u64_mod
    → (s' : Revisions) × (increment s ≡ (s', some (s.pending_revision + 1)))
      × IsValid s'
      × (s'.pending_revision ≡ s.pending_revision + 1)
      × ((e : Durability) → last_changed_revision (suc e) s' ≡ last_changed_revision (suc e) s)
unfolding last_changed_revision
increment_lem s v h =
    let (rs, e, d) = Heads-cons p s.revisions v.settled in
    (
      advanced rs,
      subst
          (λ l.
            increment (record { pending_revision = p; revisions = l })
            ≡ (advanced rs, some (p + 1)))
          (sym e) (increment-at p rs v.started h),
      record { settled = (refl, Declining-mono {a = p} rs (omega arith) d); started = omega arith },
      refl,
      λ i. ap (λ l. get_elem? l (suc i)) (sym e),
    )
  where
    p : ℕ
    p = s.pending_revision

    advanced : List ℕ → Revisions
    advanced rs = record { pending_revision = p + 1; revisions = (p + 1) ∷ rs }

store_upto-get :
    (d new e : ℕ) (rs : List ℕ)
    → get_elem? (store_upto d new rs) e
      ≡ (if ltb e d then Option.map (λ _. new) (get_elem? rs e) else get_elem? rs e)
unfolding store_upto
store_upto-get zero new e rs = ground arith
store_upto-get (suc d) new e [] = ground arith
store_upto-get (suc d) new zero (r ∷ rs) = ground arith
store_upto-get (suc d) new (suc e) (r ∷ rs) = ground (arith, store_upto-get d new e rs)

-- A write of durability `d` stores the new revision for each durability from 1 up to `d`, and
-- leaves the current revision and the counters above `d` alone.
pub last_changed-mark :
    (s : Revisions) (new : Revision) (d e : Durability)
    → last_changed_revision e (mark_durability_as_changed new d s) ≡ (
        if ltb 0 e && leb e d
        then Option.map (λ _. new) (last_changed_revision e s)
        else last_changed_revision e s)
unfolding last_changed_revision mark_durability_as_changed store_behind_first
last_changed-mark s new d e = go s.revisions e
  where
    go :
        (rs : List ℕ) (e : ℕ)
        → get_elem? (store_behind_first d new rs) e
          ≡ (if ltb 0 e && leb e d then Option.map (λ _. new) (get_elem? rs e) else get_elem? rs e)
    go [] e = ground arith
    go (r ∷ rs) zero = refl
    go (r ∷ rs) (suc e) = ground (arith, store_upto-get d new e rs)
