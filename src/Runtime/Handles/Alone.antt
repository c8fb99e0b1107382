-- ===== src/Runtime/Handles/Alone.antt =====
-- Snapshots of src/runtime.rs keep their revision, and a writer gets its turn.
use salsa.Base.{
  ℕ, ◌+◌, ◌-◌, ◌≡◌, refl, sym, ◌∙◌, ap, subst, ◌⊎◌, inl, inr, Bool, true, Option, none, some, List,
  [], ◌∷◌, arith, ◌==◌, if◌then◌else◌, length, Bool-cases, Option-cases, some-injective,
}
use salsa.Revision.{Revision}
use salsa.Runtime.Handles.{
  Handle, Handles, remove_handle, drop_snapshot, finish_increment, set_query, Step, main_snapshots,
  snapshot_snapshots, main_queries, snapshot_queries, drops, begins, finishes, Reachable, begun,
  then_step, snapshot,
}
use salsa.Runtime.Handles.Writer.{
  IsGuarded, length-replaced, snapshot-IsGuarded, drop_snapshot-IsGuarded,
  begin_increment-IsGuarded, finish_increment-run,
}

-- A write that ends had waited, and had no snapshot beside it.
finish_increment-alone :
    (s s' : Handles)
    → finish_increment s ≡ some s'
    → (r : Revision) × (s.waiting ≡ some r) × (s.readers ≡ 0)
unfolding finish_increment
finish_increment-alone s s' e = elim (Option-cases s.waiting) [
  | inl f ↦ cc (rw (f, finish_increment) at e)
  | inr (r, f) ↦ elim (Bool-cases (s.readers == 0)) [
    | inl yes' ↦ (r, f, ground arith)
    | inr no' ↦ cc (rw (f, finish_increment, no') at e)
  ]
]

empty-length : (hs : List Handle) → length hs ≡ 0 → hs ≡ []
empty-length [] e = refl
empty-length (h ∷ hs) e = absurd (omega arith)

snapshot-current : (h : Handle) (s s' : Handles) → snapshot h s ≡ some s' → s'.current ≡ s.current
unfolding snapshot
snapshot-current h s s' e = elim (Bool-cases h.query_in_progress) [
  | inl yes' ↦ cc (rw (yes', snapshot) at e)
  | inr no' ↦ ap (λ (t : Handles). t.current) (sym (some-injective (rw (no', snapshot) at e)))
]

-- A writer waits, `finish_increment` gives the new state, no snapshot is there, and the revision is
-- the next one.
abbrev pub EndsWrite : Handles → Handles → Type 0
EndsWrite s s' =
    (r : Revision) × (s.waiting ≡ some r)
    × (finish_increment s ≡ some s')
    × (s.snapshots ≡ [])
    × (s'.current ≡ s.current + 1)

-- A step keeps the invariant, and the revision, unless it is the end of a write.
step-IsGuarded :
    (s s' : Handles)
    → IsGuarded s
    → Step s s'
    → IsGuarded s' × ((s'.current ≡ s.current) ⊎ EndsWrite s s')
step-IsGuarded s s' g (main_snapshots idle e) =
    (snapshot-IsGuarded s.main s s' g e, inl (snapshot-current s.main s s' e))
step-IsGuarded s s' g (snapshot_snapshots before after h f e) =
    (snapshot-IsGuarded h s s' g e, inl (snapshot-current h s s' e))
step-IsGuarded s _ g (main_queries b idle) = (
  record {
    counted = g.counted;
    unguarded = g.unguarded;
    started = g.started;
    inside = g.inside;
    pending = g.pending;
  },
  inl refl,
)
step-IsGuarded s _ g (snapshot_queries b before after h f) = (
  record {
    counted = g.counted ∙ ap length f ∙ length-replaced before after h (set_query b h);
    unguarded = g.unguarded;
    started = g.started;
    inside = g.inside;
    pending = g.pending;
  },
  inl refl,
)
step-IsGuarded s s' g (drops id e) =
    let (g', same) = drop_snapshot-IsGuarded id s s' g e in (g', inl same)
step-IsGuarded s s' g (begins idle e) =
    let (g', same) = begin_increment-IsGuarded s s' g idle e in (g', inl same)
step-IsGuarded s s' g (finishes e) =
    let (r, waits, alone) = finish_increment-alone s s' e in
    let (made, run, g', up) = finish_increment-run s r g waits alone in
    let same : made ≡ s' = some-injective (sym run ∙ e) in
    (
      subst IsGuarded same g',
      inr (
        r,
        waits,
        e,
        empty-length s.snapshots (sym g.counted ∙ alone),
        ap (λ (t : Handles). t.current) (sym same) ∙ up,
      ),
    )

Reachable-IsGuarded : (s : Handles) → Reachable s → IsGuarded s
Reachable-IsGuarded _ begun = record {
  counted = refl;
  unguarded = refl;
  started = omega arith;
  inside = omega arith;
  pending = refl;
}
Reachable-IsGuarded s' (then_step {s} r step) =
    (step-IsGuarded s s' (Reachable-IsGuarded s r) step).0

-- Whatever the handles of a database did so far, a step leaves the current revision as it is, or
-- it is the end of a write that waited: then no snapshot is there, and the revision is the next
-- one.
pub step-current :
    (s s' : Handles) → Reachable s → Step s s' → (s'.current ≡ s.current) ⊎ EndsWrite s s'
step-current s s' r step = (step-IsGuarded s s' (Reachable-IsGuarded s r) step).1

drop_newest :
    (s : Handles) (h : Handle) (hs : List Handle)
    → s.snapshots ≡ h ∷ hs
    → drop_snapshot h.id s ≡ some (record s { readers = s.readers - 1; snapshots = hs })
unfolding drop_snapshot remove_handle
drop_newest s h hs e = ap (λ t. answer (remove_handle h.id t)) e ∙ ap (λ b. answer (chosen b)) own
  where
    answer : Option (List Handle) → Option Handles
    answer t = elim t [
      | none ↦ none
      | some rest ↦ some (record s { readers = s.readers - 1; snapshots = rest })
    ]

    chosen : Bool → Option (List Handle)
    chosen b =
        if b
        then some hs
        else (elim (remove_handle h.id hs) [ none ↦ none | some hs' ↦ some (h ∷ hs') ])

    own : (h.id == h.id) ≡ true
    own = ground arith

-- Steps that only drop snapshots, and then end the write.
pub data Release : Handles → Handles → Type 0 where
  ends : {s s' : Handles} → finish_increment s ≡ some s' → Release s s'
  drops_first :
      {s s1 s' : Handles} (id : ℕ) → drop_snapshot id s ≡ some s1 → Release s1 s' → Release s s'

Release-all :
    (hs : List Handle) (s : Handles) (r : Revision)
    → s.snapshots ≡ hs
    → IsGuarded s
    → s.waiting ≡ some r
    → (s' : Handles) × Release s s' × (s'.current ≡ s.current + 1)
Release-all [] s r e g waits =
    let (s', run, g', up) = finish_increment-run s r g waits (g.counted ∙ ap length e) in
    (s', ends run, up)
Release-all (h ∷ hs) s r e g waits =
    let s1 = record s { readers = s.readers - 1; snapshots = hs } in
    let run = drop_newest s h hs e in
    let (g1, same) = drop_snapshot-IsGuarded h.id s s1 g run in
    let (s', rest, up) = Release-all hs s1 r refl g1 waits in (s', drops_first h.id run rest, up)

-- Whatever the handles of a database did so far, a write that waits ends with the next revision,
-- once the snapshots are dropped.
pub waiting-Release :
    (s : Handles) (r : Revision)
    → Reachable s
    → s.waiting ≡ some r
    → (s' : Handles) × Release s s' × (s'.current ≡ s.current + 1)
waiting-Release s r reachable waits =
    Release-all s.snapshots s r refl (Reachable-IsGuarded s reachable) waits
