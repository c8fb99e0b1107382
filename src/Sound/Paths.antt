-- ===== src/Sound/Paths.antt =====
-- Facts about the path that a program takes in one revision.
use salsa.Base.{
  ℕ, zero, suc, ◌≤◌, ◌≡◌, ◌∙◌, sym, subst, inl, inr, false, Option, some, List, [], ◌∷◌, ◌++◌, min,
  arith, Option-cases,
}
use salsa.Revision.{Revision}
use salsa.Durability.{Durability, low, max_durability}
use salsa.Key.{DatabaseKey, input, derived}
use salsa.Database.Program.{Program, done, fetch, read_untracked, check_canceled, crash}
use salsa.Sound.Spec.{Answer, interp, Below, KeyBelow, Setting}
use salsa.Sound.Invariant.{Laws, IsConstant, IsKnown, Observed, Covers, Extends}

module _ {V : Type 0} (o : DatabaseKey → Option (Answer V)) (w : V) where
  -- A fetch that succeeds, taken apart and put together.
  pub interp-fetch :
      (d : Durability) (key : DatabaseKey) (k : V → Program V) {a : Answer V}
      → interp o w d (fetch key k) ≡ some a
      → (b : Answer V) × (o key ≡ some b) × (interp o w (min d b.durability) (k b.value) ≡ some a)
  interp-fetch d key k h = elim (Option-cases (o key)) [
    | inl e ↦ cc (rw (e, interp) at h)
    | inr (b, e) ↦ (b, e, rw (e, interp) at h)
  ]

  pub fetch-interp :
      (d : Durability) (key : DatabaseKey) (k : V → Program V) {b : Answer V}
      → o key ≡ some b
      → interp o w d (fetch key k) ≡ interp o w (min d b.durability) (k b.value)
  fetch-interp d key k e = rw (e, interp)

  pub interp-durability :
      (p : Program V) (d : Durability) (a : Answer V) → interp o w d p ≡ some a → a.durability ≤ d
  interp-durability (done v) d a h = ground arith
  interp-durability (fetch key k) d a h =
      let (b, e, h') = interp-fetch d key k h in
      omega (arith, interp-durability (k b.value) (min d b.durability) a h')
  interp-durability (read_untracked k) d a h = omega (arith, interp-durability (k w) low a h)
  interp-durability (check_canceled k) d a h = interp-durability (k false) d a h
  interp-durability crash d a h = cc

module _ {V L : Type 0} (S : Setting V L) where
  open S use {config, rank, now, den, world, past}

  pub IsKnown-mono :
      {seen seen' : ℕ → Type 0}
      → Extends S seen seen'
      → (key : DatabaseKey) → IsKnown S seen key
      → IsKnown S seen' key
  IsKnown-mono ext (input i) h = tt
  IsKnown-mono ext (derived k) (inl h) = inl (ext k h)
  IsKnown-mono ext (derived k) (inr h) = inr h

  pub Observed-mono :
      {seen seen' : ℕ → Type 0}
      → Extends S seen seen'
      → (r : Revision) (p : Program V) → Observed S seen r p
      → Observed S seen' r p
  Observed-mono ext r (done v) h = tt
  Observed-mono ext r (fetch key k) h =
      (IsKnown-mono ext key h.0, λ a e. Observed-mono ext r (k a.value) (h.1 a e))
  Observed-mono ext r (read_untracked k) h = Observed-mono ext r (k (world r)) h
  Observed-mono ext r (check_canceled k) h = Observed-mono ext r (k false) h
  Observed-mono ext r crash h = tt

  module _ (laws : Laws S) where
    -- A key of durability above low is constant, given that for the derived keys of lower rank.
    abbrev ConstantBelow : ℕ → Type 0
    ConstantBelow n =
        (r : Revision) (key : DatabaseKey) (a : Answer V)
        → KeyBelow rank n key
        → den r key ≡ some a
        → 1 ≤ a.durability
        → (r' : Revision) → den r' key ≡ some a

    interp-constant :
        (n : ℕ)
        → ConstantBelow n
        → (p : Program V) → Below rank n p
        → (r r' : Revision) (d : Durability) (a : Answer V) → interp (den r) (world r) d p ≡ some a
        → 1 ≤ a.durability
        → interp (den r') (world r') d p ≡ some a
    interp-constant n below (done v) b r r' d a h one = h
    interp-constant n below (fetch key k) b r r' d a h one =
        let (c, e, h') = interp-fetch (den r) (world r) d key k h in
        let high : a.durability ≤ min d c.durability =
          interp-durability (den r) (world r) (k c.value) _ a h' in
        fetch-interp (den r') (world r') d key k (below r key c b.0 e (omega arith) r')
        ∙ interp-constant n below (k c.value) (b.1 c.value) r r' (min d c.durability) a h' one
    interp-constant n below (read_untracked k) b r r' d a h one =
        absurd (omega (arith, interp-durability (den r) (world r) (k (world r)) low a h))
    interp-constant n below (check_canceled k) b r r' d a h one =
        interp-constant n below (k false) b r r' d a h one
    interp-constant n below crash b r r' d a h one = cc

    KeyBelow-mono :
        {m n : ℕ} (key : DatabaseKey) → m ≤ n → KeyBelow rank m key → KeyBelow rank n key
    KeyBelow-mono (input i) h b = tt
    KeyBelow-mono (derived k) h b = omega arith

    constant_below : (n : ℕ) → ConstantBelow n
    constant_below n r (input i) a b e one r' = absurd (omega (arith, laws.all_low r i a e))
    constant_below zero r (derived k) a b e one r' = elim b [ ]
    constant_below (suc n) r (derived k) a b e one r' =
        laws.meaning r' k
        ∙ interp-constant (rank k)
            (λ r key c kb. constant_below n r key c (KeyBelow-mono key (omega arith) kb))
            (config.execute k) (laws.acyclic k) r r' max_durability a (sym (laws.meaning r k) ∙ e)
            one

    pub IsConstant-of :
        (r : Revision) (k : ℕ) (a : Answer V)
        → den r (derived k) ≡ some a
        → 1 ≤ a.durability
        → IsConstant S k
    IsConstant-of r k a e one =
        (a, one, λ r'. constant_below (suc (rank k)) r (derived k) a (omega arith) e one r')

    IsKnown-of_high :
        (seen : ℕ → Type 0) (r : Revision) (key : DatabaseKey) (a : Answer V)
        → den r key ≡ some a
        → 1 ≤ a.durability
        → IsKnown S seen key
    IsKnown-of_high seen r (input i) a e one = tt
    IsKnown-of_high seen r (derived k) a e one = inr (IsConstant-of r k a e one)

    -- On the path of a constant program all keys are known.
    pub Observed-high :
        (seen : ℕ → Type 0) (r : Revision) (p : Program V) (d : Durability) (a : Answer V)
        → interp (den r) (world r) d p ≡ some a
        → 1 ≤ a.durability
        → Observed S seen r p
    Observed-high seen r (done v) d a h one = tt
    Observed-high seen r (fetch key k) d a h one =
        let (c, e, h') = interp-fetch (den r) (world r) d key k h in
        let high : a.durability ≤ min d c.durability =
          interp-durability (den r) (world r) (k c.value) _ a h' in
        (
          IsKnown-of_high seen r key c e (omega arith),
          λ b f.
              let same : b ≡ c = cc in
              subst (λ (t : Answer V). Observed S seen r (k t.value)) (sym same)
                (Observed-high seen r (k c.value) (min d c.durability) a h' one),
        )
    Observed-high seen r (read_untracked k) d a h one =
        Observed-high seen r (k (world r)) low a h one
    Observed-high seen r (check_canceled k) d a h one = Observed-high seen r (k false) d a h one
    Observed-high seen r crash d a h one = tt

    den-high :
        (r r' : Revision) (key : DatabaseKey) (a : Answer V)
        → den r key ≡ some a
        → 1 ≤ a.durability
        → den r' key ≡ some a
    den-high r r' (input i) a e one = absurd (omega (arith, laws.all_low r i a e))
    den-high r r' (derived k) a e one =
        constant_below (suc (rank k)) r (derived k) a (omega arith) e one r'

    -- A constant program reads the same keys in every revision.
    pub Covers-high :
        (r r' : Revision) (p : Program V) (d : Durability) (a : Answer V)
        → interp (den r) (world r) d p ≡ some a
        → 1 ≤ a.durability
        → (read rest : List DatabaseKey) → Covers S r read rest p
        → Covers S r' read rest p
    Covers-high r r' (done v) d a h one read rest c = c
    Covers-high r r' (fetch key k) d a h one read rest (b, e, c) =
        let (b', e', h') = interp-fetch (den r) (world r) d key k h in
        let same : b' ≡ b = cc in
        let high : a.durability ≤ min d b'.durability =
          interp-durability (den r) (world r) (k b'.value) _ a h' in
        let h2 : interp (den r) (world r) (min d b.durability) (k b.value) ≡ some a =
          subst
            (λ (t : Answer V). interp (den r) (world r) (min d t.durability) (k t.value) ≡ some a)
            same h' in
        (
          b,
          den-high r r' key b e (subst (λ (t : Answer V). 1 ≤ t.durability) same (omega arith)),
          (elim c [
            | inl (i, c') ↦
                inl (i, Covers-high r r' (k b.value) (min d b.durability) a h2 one read rest c')
            | inr (rest', f, c') ↦ inr (
              rest',
              f,
              Covers-high r r' (k b.value) (min d b.durability) a h2 one (read ++ key ∷ []) rest'
                  c',
            )
          ]),
        )
    Covers-high r r' (read_untracked k) d a h one read rest c = elim c [ ]
    Covers-high r r' (check_canceled k) d a h one read rest c =
        Covers-high r r' (k false) d a h one read rest c
    Covers-high r r' crash d a h one read rest c = elim c [ ]
