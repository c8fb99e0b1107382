-- ===== src/Sound/Meaning.antt =====
-- The reference: what a key means for given inputs, and the setting that a history of inputs makes.
use salsa.Base.{
  ℕ, zero, suc, ◌<◌, ◌≡◌, refl, sym, ◌∙◌, ap, inl, inr, true, false, Option, none, some, min, arith,
  Option-cases,
}
use salsa.Revision.{Revision}
use salsa.Durability.{Durability, low, max_durability}
use salsa.Key.{DatabaseKey, input, derived}
use salsa.Database.Program.{Program, done, fetch, read_untracked, check_canceled, crash, Config}
use salsa.Sound.Spec.{Answer, interp, Below, KeyBelow, Setting}
use salsa.Sound.Invariant.{Laws}

-- The inputs that are set, and what an untracked read sees.
pub record Facts (V : Type 0) : Type 0 where
  pub inputs : ℕ → Option V
  pub world : V

-- What the client of the crate has to provide: query functions without cycles, and an equality
-- that is true of equal values alone.
pub record Lawful {V L : Type 0} (config : Config V L) (rank : ℕ → ℕ) : Type 0 where
  pub acyclic : (k : ℕ) → Below rank (rank k) (config.execute k)
  pub eq_sound : (u v : V) → config.value_eq u v ≡ true → u ≡ v

-- The facts of every revision so far, and what was verified in it.
pub record History (V : Type 0) : Type 1 where
  pub facts : Revision → Facts V
  pub past : Revision → ℕ → Type 0
  pub now : Revision
  pub me : ℕ
  pub mark_medium : Revision
  pub mark_high : Revision

module _ {V : Type 0} where
  -- An input is of low durability.
  abbrev pub given : Option V → Option (Answer V)
  given none = none
  given (some v) = some (record { value = v; durability = low })

  -- The meaning of a key, for a derived key of a rank below `depth`.
  abbrev pub meaning_at : (ℕ → Program V) → ℕ → Facts V → DatabaseKey → Option (Answer V)
  meaning_at execute depth facts (input i) = given (facts.inputs i)
  meaning_at execute zero facts (derived k) = none
  meaning_at execute (suc depth) facts (derived k) =
      interp (meaning_at execute depth facts) facts.world max_durability (execute k)

  abbrev pub meaning : (ℕ → ℕ) → (ℕ → Program V) → Facts V → DatabaseKey → Option (Answer V)
  meaning rank execute facts (input i) = given (facts.inputs i)
  meaning rank execute facts (derived k) = meaning_at execute (suc (rank k)) facts (derived k)

  -- Answers that agree on what a program may read give the same result.
  interp-agree :
      (rank : ℕ → ℕ) (n : ℕ) (o o' : DatabaseKey → Option (Answer V)) (w : V)
      → ((key : DatabaseKey) → KeyBelow rank n key → o key ≡ o' key)
      → (p : Program V) → Below rank n p
      → (d : Durability) → interp o w d p ≡ interp o' w d p
  interp-agree rank n o o' w same (done v) b d = refl
  interp-agree rank n o o' w same (fetch key k) b d = elim (Option-cases (o key)) [
    | inl e ↦
        let f : o' key ≡ none = sym (same key b.0) ∙ e in
        ap (continue o) e ∙ sym (ap (continue o') f)
    | inr (a, e) ↦
        let f : o' key ≡ some a = sym (same key b.0) ∙ e in
        ap (continue o) e
        ∙ interp-agree rank n o o' w same (k a.value) (b.1 a.value) (min d a.durability)
        ∙ sym (ap (continue o') f)
  ]
    where
      continue : (DatabaseKey → Option (Answer V)) → Option (Answer V) → Option (Answer V)
      continue q t = elim t [ none ↦ none | some a ↦ interp q w (min d a.durability) (k a.value) ]
  interp-agree rank n o o' w same (read_untracked k) b d =
      interp-agree rank n o o' w same (k w) (b w) low
  interp-agree rank n o o' w same (check_canceled k) b d =
      interp-agree rank n o o' w same (k false) b d
  interp-agree rank n o o' w same crash b d = refl

module _ {V L : Type 0} (config : Config V L) (rank : ℕ → ℕ) where
  -- The setting of a history.
  abbrev pub setting : History V → Setting V L
  setting h = record {
    config = config;
    rank = rank;
    now = h.now;
    den = λ r. meaning rank config.execute (h.facts r);
    world = λ r. (h.facts r).world;
    past = h.past;
    me = h.me;
    mark_medium = h.mark_medium;
    mark_high = h.mark_high;
  }

  module _ (lawful : Lawful config rank) where
    on_keys :
        (o o' : DatabaseKey → Option (Answer V)) (n : ℕ)
        → ((i : ℕ) → o (input i) ≡ o' (input i))
        → ((j : ℕ) → rank j < n → o (derived j) ≡ o' (derived j))
        → (key : DatabaseKey) → KeyBelow rank n key
        → o key ≡ o' key
    on_keys o o' n ins ders (input i) h = ins i
    on_keys o o' n ins ders (derived j) h = ders j h

    meaning_at-enough :
        (d d' k : ℕ) (facts : Facts V)
        → rank k < d
        → rank k < d'
        → meaning_at config.execute d facts (derived k)
          ≡ meaning_at config.execute d' facts (derived k)
    meaning_at-enough zero d' k facts lt lt' = absurd (omega arith)
    meaning_at-enough (suc d) zero k facts lt lt' = absurd (omega arith)
    meaning_at-enough (suc d) (suc d') k facts lt lt' =
        interp-agree rank (rank k) (meaning_at config.execute d facts)
          (meaning_at config.execute d' facts) facts.world
          (on_keys (meaning_at config.execute d facts) (meaning_at config.execute d' facts) (rank k)
            (λ i. refl) (λ j h. meaning_at-enough d d' j facts (omega arith) (omega arith)))
          (config.execute k) (lawful.acyclic k) max_durability

    meaning-unfold :
        (k : ℕ) (facts : Facts V)
        → meaning rank config.execute facts (derived k)
          ≡ interp (meaning rank config.execute facts) facts.world max_durability (config.execute k)
    meaning-unfold k facts =
        interp-agree rank (rank k) (meaning_at config.execute (rank k) facts)
          (meaning rank config.execute facts) facts.world below (config.execute k)
          (lawful.acyclic k) max_durability
      where
        below :
            (key : DatabaseKey)
            → KeyBelow rank (rank k) key
            → meaning_at config.execute (rank k) facts key ≡ meaning rank config.execute facts key
        below (input i) h = refl
        below (derived j) h = meaning_at-enough (rank k) (suc (rank j)) j facts h (omega arith)

    given-low : (t : Option V) (a : Answer V) → given t ≡ some a → a.durability ≡ low
    given-low none a e = cc
    given-low (some v) a e = cc

    pub setting-Laws : (h : History V) → Laws (setting h)
    setting-Laws h = record {
      meaning = λ r k. meaning-unfold k (h.facts r);
      all_low = λ r i a e. given-low ((h.facts r).inputs i) a e;
      acyclic = lawful.acyclic;
      eq_sound = lawful.eq_sound;
    }
