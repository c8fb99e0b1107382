-- ===== src/Runtime/Handles/Writer.antt =====
-- The writer and the snapshots of a database, src/runtime.rs: when the revision may change.
use salsa.Base.{
  ℕ, suc, ◌+◌, ◌-◌, ◌%◌, ◌≤◌, ◌<◌, ◌≡◌, refl, sym, ◌∙◌, ap, subst, inl, inr, Bool, true, false,
  ◌&&◌, not, Option, none, some, List, [], ◌∷◌, ◌++◌, arith, ◌==◌, if◌then◌else◌, length,
  Bool-cases, Option-cases, some-injective, dec_lt,
}
use salsa.Revision.{Revision, u64_mod, fetch_then_increment}
use salsa.Runtime.Revisions.Declining.{fetch_then_increment-inside, next-inside}
use salsa.Runtime.Handles.{
  Handle, Handles, snapshot, remove_handle, drop_snapshot, begin_increment, renewed,
  finish_increment,
}

-- Where the pending revision stands, while the first handle waits and otherwise.
abbrev pub Pending : Option Revision → Revision → Revision → Type 0
Pending none pending current = pending ≡ current
Pending (some r) pending current = (r ≡ current) × (pending ≡ r + 1) × (r + 1 < u64_mod)

pub record IsGuarded (s : Handles) : Type 0 where
  pub counted : s.readers ≡ length s.snapshots
  pub unguarded : s.main.revision_guard ≡ false
  pub started : 1 ≤ s.current
  pub inside : s.current < u64_mod
  pub pending : Pending s.waiting s.pending_revision s.current

pub length-replaced :
    (before after : List Handle) (h h' : Handle)
    → length (before ++ h ∷ after) ≡ length (before ++ h' ∷ after)
length-replaced [] after h h' = refl
length-replaced (b ∷ before) after h h' = ap suc (length-replaced before after h h')

length-remove_handle :
    (id : ℕ) (hs hs' : List Handle) → remove_handle id hs ≡ some hs' → length hs ≡ suc (length hs')
unfolding remove_handle
length-remove_handle id [] hs' e = cc
length-remove_handle id (h ∷ hs) hs' e = elim (Bool-cases (h.id == id)) [
  | inl yes' ↦
      let f : some hs ≡ some hs' = sym (ap chosen yes') ∙ e in
      ap (λ t. suc (length t)) (some-injective f)
  | inr no' ↦ elim (Option-cases (remove_handle id hs)) [
    | inl g ↦ cc (sym (ap chosen no' ∙ ap kept g) ∙ e)
    | inr (rest, g) ↦
        let f : some (h ∷ rest) ≡ some hs' = sym (ap chosen no' ∙ ap kept g) ∙ e in
        ap suc (length-remove_handle id hs rest g) ∙ ap (λ t. suc (length t)) (some-injective f)
  ]
]
  where
    kept : Option (List Handle) → Option (List Handle)
    kept t = elim t [ none ↦ none | some hs' ↦ some (h ∷ hs') ]

    chosen : Bool → Option (List Handle)
    chosen b = if b then some hs else kept (remove_handle id hs)

pub snapshot-IsGuarded :
    (h : Handle) (s s' : Handles) → IsGuarded s → snapshot h s ≡ some s' → IsGuarded s'
unfolding snapshot
snapshot-IsGuarded h s s' g e = elim (Bool-cases h.query_in_progress) [
  | inl yes' ↦ cc (sym (ap answer yes') ∙ e)
  | inr no' ↦ subst IsGuarded (some-injective (sym (ap answer no') ∙ e)) (record {
    counted = ap suc g.counted;
    unguarded = g.unguarded;
    started = g.started;
    inside = g.inside;
    pending = g.pending;
  })
]
  where
    made : Handles
    made = record s {
      next_id = (s.next_id + 1) % u64_mod;
      readers = suc s.readers;
      snapshots =
          record { id = s.next_id; revision_guard = true; query_in_progress = false } ∷ s.snapshots;
    }

    answer : Bool → Option Handles
    answer b = if b then none else some made

pub drop_snapshot-IsGuarded :
    (id : ℕ) (s s' : Handles)
    → IsGuarded s
    → drop_snapshot id s ≡ some s'
    → IsGuarded s' × (s'.current ≡ s.current)
unfolding drop_snapshot
drop_snapshot-IsGuarded id s s' g e = elim (Option-cases (remove_handle id s.snapshots)) [
  | inl f ↦ cc (sym (ap answer f) ∙ e)
  | inr (hs, f) ↦
      let same : record s { readers = s.readers - 1; snapshots = hs } ≡ s' =
        some-injective (sym (ap answer f) ∙ e) in
      let longer = length-remove_handle id s.snapshots hs f in
      (
        subst IsGuarded same (record {
          counted = omega (arith, g.counted, longer);
          unguarded = g.unguarded;
          started = g.started;
          inside = g.inside;
          pending = g.pending;
        }),
        ap (λ (t : Handles). t.current) (sym same),
      )
]
  where
    answer : Option (List Handle) → Option Handles
    answer t = elim t [
      | none ↦ none
      | some hs ↦ some (record s { readers = s.readers - 1; snapshots = hs })
    ]

fetch_then_increment-end :
    (v : ℕ) → v + 1 ≡ u64_mod → fetch_then_increment v ≡ ((v + 1) % u64_mod, none)
unfolding fetch_then_increment
fetch_then_increment-end v e = ground arith

pub begin_increment-IsGuarded :
    (s s' : Handles)
    → IsGuarded s
    → s.waiting ≡ none
    → begin_increment s ≡ some s'
    → IsGuarded s' × (s'.current ≡ s.current)
unfolding begin_increment
begin_increment-IsGuarded s s' g idle e =
    elim (Bool-cases (not s.main.revision_guard && not s.main.query_in_progress)) [
      | inr no' ↦ cc (sym (ap answer no') ∙ e)
      | inl yes' ↦ elim (dec_lt (s.pending_revision + 1) u64_mod) [
        | yes lt ↦
            let made : Handles = record s {
              pending_revision = s.pending_revision + 1;
              waiting = some s.pending_revision;
            } in
            let same : made ≡ s' = some-injective (
              sym (
                ap answer yes'
                ∙ ap decided (
                    fetch_then_increment-inside s.pending_revision (omega (arith, level, g.started))
                      lt))
              ∙ e) in
            (
              subst IsGuarded same (record {
                counted = g.counted;
                unguarded = g.unguarded;
                started = g.started;
                inside = g.inside;
                pending = (level, refl, lt);
              }),
              ap (λ (t : Handles). t.current) (sym same),
            )
        | no ge ↦
            let end : s.pending_revision + 1 ≡ u64_mod = omega (arith, level, g.inside) in
            cc (
              sym (ap answer yes' ∙ ap decided (fetch_then_increment-end s.pending_revision end))
              ∙ e)
      ]
    ]
  where
    decided : ℕ × Option Revision → Option Handles
    decided p = elim p.1 [
      | none ↦ none
      | some r ↦ some (record s { pending_revision = p.0; waiting = some r })
    ]

    answer : Bool → Option Handles
    answer b = if b then decided (fetch_then_increment s.pending_revision) else none

    level : s.pending_revision ≡ s.current
    level = subst (λ w. Pending w s.pending_revision s.current) idle g.pending

-- The rest of a write, once no snapshot is left.
pub finish_increment-run :
    (s : Handles) (r : Revision)
    → IsGuarded s
    → s.waiting ≡ some r
    → s.readers ≡ 0
    → (s' : Handles) × (finish_increment s ≡ some s') × IsGuarded s' × (s'.current ≡ s.current + 1)
unfolding finish_increment renewed
finish_increment-run s r g waits alone = (
  record s { current = s.current + 1; waiting = none },
  ap answer waits
      ∙ ap (chosen r) test
      ∙ ap (decided r)
          (fetch_then_increment-inside s.current g.started (omega (arith, pend.0, pend.2)))
      ∙ ap (finished (s.current + 1)) new_revision,
  record {
    counted = g.counted;
    unguarded = g.unguarded;
    started = omega (arith, g.started);
    inside = omega (arith, pend.0, pend.2);
    pending = omega (arith, pend.0, pend.1);
  },
  refl,
)
  where
    pend : Pending (some r) s.pending_revision s.current
    pend = subst (λ w. Pending w s.pending_revision s.current) waits g.pending

    test : (s.readers == 0) ≡ true
    test = ground arith

    finished : ℕ → Option Revision → Option Handles
    finished current t = elim t [
      | none ↦ none
      | some new_revision ↦ some (record s { current = current; waiting = none })
    ]

    decided : Revision → ℕ × Option Revision → Option Handles
    decided current_revision p = finished p.0 (renewed current_revision p.1)

    chosen : Revision → Bool → Option Handles
    chosen current_revision b =
        if b then decided current_revision (fetch_then_increment s.current) else none

    answer : Option Revision → Option Handles
    answer t = elim t [
      | none ↦ none
      | some current_revision ↦ chosen current_revision (s.readers == 0)
    ]

    new_revision : renewed r (some s.current) ≡ some (r + 1)
    new_revision = ground (arith, next-inside r pend.2, pend.0)
