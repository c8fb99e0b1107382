-- ===== src/Sound/History.antt =====
-- From one revision to the next: what the slots of the old revision are worth in the new one.
use salsa.Base.{
  ℕ, suc, ◌≤◌, ◌<◌, ◌≡◌, refl, sym, ◌∙◌, ap, subst, ◌⊎◌, inl, inr, Bool, true, false, some, List,
  [], ◌∷◌, ◌++◌, arith, if_neg, ℕ_discrete, dec_lt,
}
use salsa.Revision.{Revision}
use salsa.Key.{DatabaseKey, input, derived}
use salsa.Derived.Memo.{
  Memo, MemoInputs, tracked, no_inputs, untracked, QueryState, not_computed, in_progress, memoized,
}
use salsa.Database.Program.{Program, done, fetch, read_untracked, check_canceled, crash, Config}
use salsa.Database.State.{update}
use salsa.Sound.Spec.{Answer, Setting}
use salsa.Sound.Invariant.{
  HasValue, IsKnown, IsConstant, Observed, Covers, RecordsInputs, IsLifted, IsFloored, MemoOk,
  SlotOk,
}
use salsa.Sound.Paths.{IsConstant-of}
use salsa.Sound.Change.{IsLifted-mono}
use salsa.Sound.Meaning.{Facts, Lawful, History, meaning, setting, setting-Laws}

-- The facts of the next revision, and what was seen in the one that ends.
abbrev pub next_revision : {V : Type 0} → History V → (ℕ → Type 0) → Facts V → History V
next_revision h seen next = record {
  facts = update h.facts (suc h.now) next;
  past = λ r k. ((r < h.now) × h.past r k) ⊎ ((r ≡ h.now) × seen k);
  now = suc h.now;
  me = h.me;
  mark_medium = h.mark_medium;
  mark_high = h.mark_high;
}

-- Nothing is seen of a new revision.
abbrev pub Unseen : ℕ → Type 0
Unseen k = ⊥

module _ {V L : Type 0} (config : Config V L) (rank : ℕ → ℕ) (lawful : Lawful config rank)
    (h : History V) (seen : ℕ → Type 0) (next : Facts V) where
  abbrev pub S : Setting V L
  S = setting config rank h

  abbrev pub T : Setting V L
  T = setting config rank (next_revision h seen next)

  pub same_facts : (r : Revision) → r ≤ h.now → T.den r ≡ S.den r
  same_facts r le =
      ap (meaning rank config.execute) (if_neg (ℕ_discrete r (suc h.now)) (λ e. omega arith) _ _)

  same_world : (r : Revision) → r ≤ h.now → T.world r ≡ S.world r
  same_world r le =
      ap (λ (f : Facts V). f.world) (if_neg (ℕ_discrete r (suc h.now)) (λ e. omega arith) _ _)

  pub den_then :
      (r : Revision) (key : DatabaseKey) (a : Answer V)
      → r ≤ h.now
      → S.den r key ≡ some a
      → T.den r key ≡ some a
  den_then r key a le e = ap (λ o. o key) (same_facts r le) ∙ e

  den_back :
      (r : Revision) (key : DatabaseKey) (a : Answer V)
      → r ≤ h.now
      → T.den r key ≡ some a
      → S.den r key ≡ some a
  den_back r key a le e = sym (ap (λ o. o key) (same_facts r le)) ∙ e

  pub value_then :
      (r : Revision) (key : DatabaseKey) (v : V)
      → r ≤ h.now
      → HasValue S r key v
      → HasValue T r key v
  value_then r key v le (a, e, f) = (a, den_then r key a le e, f)

  IsConstant-then : (k : ℕ) → IsConstant S k → IsConstant T k
  IsConstant-then k (a, one, all) =
      IsConstant-of T (setting-Laws config rank lawful (next_revision h seen next)) h.now k a
        (den_then h.now (derived k) a (omega arith) (all h.now)) one

  pub known_then :
      {s s' : ℕ → Type 0}
      → ((k : ℕ) → s k → s' k)
      → (key : DatabaseKey) → IsKnown S s key
      → IsKnown T s' key
  known_then ext (input i) k = tt
  known_then ext (derived j) (inl k) = inl (ext j k)
  known_then ext (derived j) (inr c) = inr (IsConstant-then j c)

  pub Observed-then :
      {s s' : ℕ → Type 0}
      → ((k : ℕ) → s k → s' k)
      → (r : Revision) → r ≤ h.now
      → (p : Program V) → Observed S s r p
      → Observed T s' r p
  Observed-then ext r le (done v) o = tt
  Observed-then ext r le (fetch key k) o = (
    known_then ext key o.0,
    λ a e. Observed-then ext r le (k a.value) (o.1 a (den_back r key a le e)),
  )
  Observed-then {s'} ext r le (read_untracked k) o =
      subst (λ w. Observed T s' r (k w)) (sym (same_world r le))
        (Observed-then ext r le (k (S.world r)) o)
  Observed-then ext r le (check_canceled k) o = Observed-then ext r le (k false) o
  Observed-then ext r le crash o = tt

  Covers-then :
      (r : Revision)
      → r ≤ h.now
      → (read rest : List DatabaseKey) (p : Program V) → Covers S r read rest p
      → Covers T r read rest p
  Covers-then r le read rest (done v) c = c
  Covers-then r le read rest (fetch key k) (a, e, inl (i, c)) =
      (a, den_then r key a le e, inl (i, Covers-then r le read rest (k a.value) c))
  Covers-then r le read rest (fetch key k) (a, e, inr (rest', f, c)) = (
    a,
    den_then r key a le e,
    inr (rest', f, Covers-then r le (read ++ key ∷ []) rest' (k a.value) c),
  )
  Covers-then r le read rest (read_untracked k) c = elim c [ ]
  Covers-then r le read rest (check_canceled k) c = Covers-then r le read rest (k false) c
  Covers-then r le read rest crash c = elim c [ ]

  records_then :
      (r : Revision)
      → r ≤ h.now
      → (inputs : MemoInputs) (p : Program V) → RecordsInputs S r inputs p
      → RecordsInputs T r inputs p
  records_then r le untracked p c = tt
  records_then r le no_inputs p c = Covers-then r le [] [] p c
  records_then r le (tracked []) p c = c
  records_then r le (tracked (d ∷ ds)) p c = Covers-then r le [] (d ∷ ds) p c

  IsLifted-then :
      (floor : DatabaseKey → ℕ) (r : Revision)
      → r ≤ h.now
      → (p : Program V) (f : ℕ) → IsLifted S floor r p f
      → IsLifted T floor r p f
  IsLifted-then floor r le (done v) f l = l
  IsLifted-then floor r le (fetch key k) f (inl l) = inl l
  IsLifted-then floor r le (fetch key k) f (inr (a, e, l)) =
      inr (a, den_then r key a le e, IsLifted-then floor r le (k a.value) f l)
  IsLifted-then floor r le (read_untracked k) f l = tt
  IsLifted-then floor r le (check_canceled k) f l = tt
  IsLifted-then floor r le crash f l = l

  -- What was known of the past, and of the revision that ends.
  past_then :
      (r : Revision) (key : DatabaseKey)
      → r < h.now
      → IsKnown S (h.past r) key
      → IsKnown T (T.past r) key
  past_then r key lt k = known_then (λ j p. inl (lt, p)) key k

  pub now_then :
      (r : Revision) (key : DatabaseKey) → r ≡ h.now → IsKnown S seen key → IsKnown T (T.past r) key
  now_then r key e k = known_then (λ j p. inr (e, p)) key k

  pub IsFloored-then :
      (floor floor' : DatabaseKey → ℕ)
      → ((key : DatabaseKey) → floor key ≤ floor' key)
      → (k : ℕ) → floor' (derived k) ≡ floor (derived k)
      → IsFloored S seen floor k
      → IsFloored T Unseen floor' k
  IsFloored-then floor floor' grows k e (inl l) = inl (omega (arith, e))
  IsFloored-then floor floor' grows k e (inr (r, le, f, known, known', lifted)) = inr (
    r,
    omega arith,
    omega (arith, e),
    λ _. (elim (dec_lt r h.now) [
      | yes lt ↦ past_then r (derived k) lt (known lt)
      | no ge ↦ now_then r (derived k) (omega arith) (known' (omega arith))
    ]),
    λ same. absurd (omega arith),
    subst (IsLifted T floor' r (config.execute k)) (sym e) (
        IsLifted-mono T floor floor' grows r (config.execute k) (floor (derived k))
          (IsLifted-then floor r le (config.execute k) (floor (derived k)) lifted)),
  )

  memo_then : (k : ℕ) (m : Memo V) → MemoOk S seen k m → MemoOk T Unseen k m
  memo_then k m ok = record {
    answer = ok.answer;
    means = den_then m.verified_at (derived k) ok.answer ok.not_later ok.means;
    holds = ok.holds;
    ordered = ok.ordered;
    not_later = omega (arith, ok.not_later);
    durable = ok.durable;
    small = ok.small;
    latest = λ r lt p. elim p [
      | inl (lt', q) ↦ ok.latest r lt' q
      | inr (e, q) ↦ omega (arith, ok.fresh q)
    ];
    steady = λ r lt p le. elim p [
      | inl (lt', q) ↦ value_then r (derived k) ok.answer.value (omega arith) (ok.steady r lt' q le)
      | inr (e, q) ↦
          value_then r (derived k) ok.answer.value (omega arith)
            (ok.answer, ap (λ t. S.den t (derived k)) (e ∙ sym (ok.fresh q)) ∙ ok.means, refl)
    ];
    known_past = λ _. elim (dec_lt m.verified_at h.now) [
      | yes lt ↦ past_then m.verified_at (derived k) lt (ok.known_past lt)
      | no ge ↦
          let same : m.verified_at ≡ h.now = omega (arith, ok.not_later) in
          now_then m.verified_at (derived k) same (ok.known_now same)
    ];
    known_now = λ e. absurd (omega (arith, ok.not_later));
    fresh = λ q. elim q [ ];
    inputs_ok = records_then m.verified_at ok.not_later m.inputs (config.execute k) ok.inputs_ok;
  }

  pub slot_then :
      (k : ℕ) (b : Bool) (st : QueryState V) → SlotOk S seen k b st → SlotOk T Unseen k b st
  slot_then k false not_computed ok = tt
  slot_then k false (memoized m) ok = memo_then k m ok
  slot_then k false (in_progress id waiting) ok = ok
  slot_then k true (in_progress id waiting) ok = ok
  slot_then k true not_computed ok = ok
  slot_then k true (memoized m) ok = ok
