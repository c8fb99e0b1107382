-- ===== src/Base/Outcome.antt =====
-- Code that changes a state and may panic. A panic keeps the state that it leaves behind, after
-- the guards on its way were dropped; a second panic while they are dropped aborts the process.
-- `blocks` stops at a placeholder of the runtime with that id, which is not run here: the code
-- waits for it, or learns of a cycle. `out_of_fuel` is no outcome of the program: it marks a run that the model cut short.
use Prim.Native.Nat.{ℕ}
use mathlib.Core.Option.{Option, none, some}

pub data Outcome (S A : Type 0) : Type 0 where
  returns : A → S → Outcome S A
  panics : S → Outcome S A
  aborts : S → Outcome S A
  blocks : ℕ → S → Outcome S A
  out_of_fuel : Outcome S A

abbrev pub M : Type 0 → Type 0 → Type 0
M S A = S → Outcome S A

infixl 5 ◌>>=◌ ◌>>◌
abbrev pub and_then : {S A B : Type 0} → Outcome S A → (A → M S B) → Outcome S B
and_then (returns a s) f = f a s
and_then (panics s) f = panics s
and_then (aborts s) f = aborts s
and_then (blocks id s) f = blocks id s
and_then out_of_fuel f = out_of_fuel

abbrev pub ◌>>=◌ : {S A B : Type 0} → M S A → (A → M S B) → M S B
◌>>=◌ m f s = and_then (m s) f

abbrev pub ◌>>◌ : {S B : Type 0} → M S (Unit {0}) → M S B → M S B
m >> k = m >>= λ _. k

abbrev pub pure : {S A : Type 0} → A → M S A
pure a s = returns a s

abbrev pub panic : {S A : Type 0} → M S A
panic s = panics s

-- The state, and a field of it.
abbrev pub gets : {S A : Type 0} → (S → A) → M S A
gets f s = returns (f s) s

abbrev pub modify : {S : Type 0} → (S → S) → M S (Unit {0})
modify f s = returns tt (f s)

-- `Option::unwrap`.
abbrev pub unwrap : {S A : Type 0} → Option A → M S A
unwrap none s = panics s
unwrap (some a) s = returns a s

-- A destructor that runs while a panic unwinds the stack.
abbrev pub unwound : {S A : Type 0} → Outcome S (Unit {0}) → Outcome S A
unwound (returns _ s) = panics s
unwound (panics s) = aborts s
unwound (aborts s) = aborts s
unwound (blocks id s) = blocks id s
unwound out_of_fuel = out_of_fuel

-- Code with a destructor: what `clean` does when the code panics.
abbrev pub clean_up : {S A : Type 0} → M S (Unit {0}) → Outcome S A → Outcome S A
clean_up clean (returns a s) = returns a s
clean_up clean (panics s) = unwound (clean s)
clean_up clean (aborts s) = aborts s
clean_up clean (blocks id s) = blocks id s
clean_up clean out_of_fuel = out_of_fuel

abbrev pub on_panic : {S A : Type 0} → M S (Unit {0}) → M S A → M S A
on_panic clean m s = clean_up clean (m s)
