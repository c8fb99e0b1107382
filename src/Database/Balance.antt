-- ===== src/Database/Balance.antt =====
-- Balance of the calls of a database: the stack of running queries of
-- src/runtime/local_state.rs and the placeholders in the slots of src/derived/slot.rs.
pub mod Run
pub mod Execute
pub mod Read
pub mod Get
pub mod Calls
use salsa.Base.{
  ℕ, suc, ◌≡◌, refl, sym, ◌∙◌, ap, subst, Bool, true, false, Option, none, some, List, [], ◌∷◌,
  length, if◌then◌else◌, if_pos, if_neg, ℕ_discrete,
}
use salsa.Base.Outcome.{
  Outcome, returns, panics, aborts, blocks, out_of_fuel, M, and_then, pure, panic, gets, modify,
  unwrap, clean_up, unwound, ◌>>=◌,
}
use salsa.Runtime.ActiveQuery.{ActiveQuery}
use salsa.Runtime.LocalState.{LocalState, with_top}
use salsa.Derived.Memo.{QueryState, not_computed, in_progress, memoized}
use salsa.Database.State.{Database, write_state, with_stack, update}

module _ {V : Type 0} where
  -- The runtime that works on a slot.
  abbrev pub owner : QueryState V → Option ℕ
  owner not_computed = none
  owner (in_progress id waiting) = some id
  owner (memoized memo) = none

length-with_top :
    (f : ActiveQuery → ActiveQuery) (stack : LocalState) → length (with_top f stack) ≡ length stack
length-with_top f [] = refl
length-with_top f (q ∷ stack) = refl

module _ {V L : Type 0} where
  -- The second database has a stack of the same length, and the same placeholders.
  pub record Kept (s s' : Database V L) : Type 0 where
    pub same_id : s'.runtime.id ≡ s.runtime.id
    pub same_length : length s'.runtime.local_state ≡ length s.runtime.local_state
    pub same_owners : (j : ℕ) → owner (s'.slots j) ≡ owner (s.slots j)

  pub Kept-refl : (s : Database V L) → Kept s s
  Kept-refl s = record { same_id = refl; same_length = refl; same_owners = λ j. refl }

  Kept-trans : {s t u : Database V L} → Kept s t → Kept t u → Kept s u
  Kept-trans a b = record {
    same_id = b.same_id ∙ a.same_id;
    same_length = b.same_length ∙ a.same_length;
    same_owners = λ j. b.same_owners j ∙ a.same_owners j;
  }

  -- A run that does not abort, and keeps `s` when it returns and `t` when it panics.
  pub data IsBalanced {A : Type 0} (s t : Database V L) : Outcome (Database V L) A → Type 0 where
    returned : {a : A} {s' : Database V L} → Kept s s' → IsBalanced s t (returns a s')
    panicked : {t' : Database V L} → Kept t t' → IsBalanced s t (panics t')
    blocked : {id : ℕ} {s' : Database V L} → IsBalanced s t (blocks id s')
    cut_short : IsBalanced s t out_of_fuel

  pub record Keeps {A : Type 0} (m : M (Database V L) A) : Type 0 where
    pub balanced : (s : Database V L) → IsBalanced s s (m s)

  pub weaken :
      {A : Type 0} {s s1 t t1 : Database V L} (o : Outcome (Database V L) A)
      → Kept s s1
      → Kept t t1
      → IsBalanced s1 t1 o
      → IsBalanced s t o
  weaken _ p q (returned h) = returned (Kept-trans p h)
  weaken _ p q (panicked h) = panicked (Kept-trans q h)
  weaken _ p q blocked = blocked
  weaken _ p q cut_short = cut_short

  pub and_then-IsBalanced :
      {A B : Type 0} {s t u : Database V L} (o : Outcome (Database V L) A)
      (f : A → M (Database V L) B)
      → IsBalanced s t o
      → ((a : A) (s' : Database V L) → Kept s s' → IsBalanced u t (f a s'))
      → IsBalanced u t (and_then o f)
  and_then-IsBalanced _ f (returned {a} {s'} h) k = k a s' h
  and_then-IsBalanced _ f (panicked h) k = panicked h
  and_then-IsBalanced _ f blocked k = blocked
  and_then-IsBalanced _ f cut_short k = cut_short

  pub clean_up-IsBalanced :
      {A : Type 0} {s t : Database V L} (clean : M (Database V L) (Unit {0}))
      (o : Outcome (Database V L) A)
      → IsBalanced s t o
      → ((t' : Database V L)
          → Kept t t'
          → (s' : Database V L) × (clean t' ≡ returns tt s') × Kept s s')
      → IsBalanced s s (clean_up clean o)
  clean_up-IsBalanced clean _ (returned h) k = returned h
  clean_up-IsBalanced {A = A} {s = s} clean _ (panicked {t'} h) k =
      let (s', e, kept) = k t' h in
      subst (λ o. IsBalanced s s (unwound {A = A} o)) (sym e) (panicked kept)
  clean_up-IsBalanced clean _ blocked k = blocked
  clean_up-IsBalanced clean _ cut_short k = cut_short

  pub bind-Keeps :
      {A B : Type 0} {m : M (Database V L) A} {f : A → M (Database V L) B}
      → Keeps m
      → ((a : A) → Keeps (f a))
      → Keeps (m >>= f)
  bind-Keeps {m = m} {f = f} h k = record {
    balanced = λ s.
        and_then-IsBalanced (m s) f (h.balanced s)
          (λ a s' kept. weaken (f a s') kept kept ((k a).balanced s'));
  }

  pub pure-Keeps : {A : Type 0} (a : A) → Keeps (pure a)
  pure-Keeps a = record { balanced = λ s. returned (Kept-refl s) }

  pub panic-Keeps : {A : Type 0} → Keeps {A = A} panic
  panic-Keeps = record { balanced = λ s. panicked (Kept-refl s) }

  pub gets-Keeps : {A : Type 0} (f : Database V L → A) → Keeps (gets f)
  gets-Keeps f = record { balanced = λ s. returned (Kept-refl s) }

  pub modify-Keeps :
      (f : Database V L → Database V L) → ((s : Database V L) → Kept s (f s)) → Keeps (modify f)
  modify-Keeps f h = record { balanced = λ s. returned (h s) }

  unwrap-IsBalanced : {A : Type 0} (o : Option A) (s : Database V L) → IsBalanced s s (unwrap o s)
  unwrap-IsBalanced none s = panicked (Kept-refl s)
  unwrap-IsBalanced (some a) s = returned (Kept-refl s)

  pub unwrap-Keeps : {A : Type 0} (o : Option A) → Keeps (unwrap o)
  unwrap-Keeps o = record { balanced = unwrap-IsBalanced o }

  pub if-Keeps :
      {A : Type 0} (b : Bool) {m n : M (Database V L) A}
      → Keeps m
      → Keeps n
      → Keeps (if b then m else n)
  if-Keeps true h k = h
  if-Keeps false h k = k

  pub with_top-Kept :
      (f : ActiveQuery → ActiveQuery) (s : Database V L)
      → Kept s (with_stack (with_top f s.runtime.local_state) s)
  with_top-Kept f s = record {
    same_id = refl;
    same_length = length-with_top f s.runtime.local_state;
    same_owners = λ j. refl;
  }

  -- A write to a slot that leaves its placeholder, if there is one.
  pub write_state-Kept :
      (k : ℕ) (state : QueryState V) (s : Database V L)
      → owner state ≡ owner (s.slots k)
      → Kept s (write_state k state s)
  write_state-Kept k state s e = record {
    same_id = refl;
    same_length = refl;
    same_owners = λ j. elim (ℕ_discrete j k) [
      | yes same ↦
          ap owner (if_pos (ℕ_discrete j k) same _ _) ∙ e ∙ ap (λ i. owner (s.slots i)) (sym same)
      | no n ↦ ap owner (if_neg (ℕ_discrete j k) n _ _)
    ];
  }
