-- ===== src/Sound/Answers.antt =====
-- The calls of src/derived/slot.rs and src/input.rs on a database that satisfies the invariant.
use salsa.Base.{ℕ, zero, suc, ◌≤◌, ◌<◌, arith}
use salsa.Revision.{start}
use salsa.Database.Read.{calls}
use salsa.Sound.Spec.{Setting}
use salsa.Sound.Invariant.{Laws, IsPastClosed}
use salsa.Sound.Contract.{CallsOk}
use salsa.Sound.Deliver.{get_ok}
use salsa.Sound.Since.{check_ok}

module _ {V L : Type 0} (S : Setting V L) (laws : Laws S) (past_closed : IsPastClosed S)
    (started : start ≤ S.now) where
  open S use {config}

  -- With fuel above the rank of all queries in question, the calls keep their contract.
  pub calls_ok : (fuel n : ℕ) → n < fuel → CallsOk S (calls config fuel) n
  unfolding calls
  calls_ok zero n lt = absurd (omega arith)
  calls_ok (suc fuel) n lt = record {
    get_ok = λ seen busy db key a inv free below e.
        get_ok S laws past_closed started (calls config fuel) n key seen busy db inv a
          (λ m h. calls_ok fuel m (omega arith)) free below e;
    check_ok = λ seen busy db key a revision inv free below e earlier known.
        check_ok S laws past_closed started (calls config fuel) n key seen busy db inv a revision
          (λ m h. calls_ok fuel m (omega arith)) free below e earlier known;
  }
