-- ===== src/Sweep.antt =====
-- `SweepStrategy` of src/lib.rs: what a garbage collection discards, and when.
use salsa.Base.{ℕ, ltb, if◌then◌else◌}

pub data DiscardIf : Type 0 where
  never outdated always : DiscardIf

pub data DiscardWhat : Type 0 where
  nothing values everything : DiscardWhat

-- The derived orders go by the order of the variants.
unfoldable pub if_rank : DiscardIf → ℕ
if_rank never = 0
if_rank outdated = 1
if_rank always = 2

unfoldable pub what_rank : DiscardWhat → ℕ
what_rank nothing = 0
what_rank values = 1
what_rank everything = 2

unfoldable pub max_if : DiscardIf → DiscardIf → DiscardIf
unfolding if_rank
max_if a b = if ltb (if_rank b) (if_rank a) then a else b

unfoldable pub max_what : DiscardWhat → DiscardWhat → DiscardWhat
unfolding what_rank
max_what a b = if ltb (what_rank b) (what_rank a) then a else b

pub record SweepStrategy : Type 0 where
  pub discard_if : DiscardIf
  pub discard_what : DiscardWhat

-- `SweepStrategy::default`.
abbrev pub default : SweepStrategy
default = record { discard_if = never; discard_what = nothing }

unfoldable pub discard_values : SweepStrategy → SweepStrategy
unfolding max_what
discard_values s = record s { discard_what = max_what s.discard_what values }

unfoldable pub discard_everything : SweepStrategy → SweepStrategy
unfolding max_what
discard_everything s = record s { discard_what = max_what s.discard_what everything }

unfoldable pub sweep_outdated : SweepStrategy → SweepStrategy
unfolding max_if
sweep_outdated s = record s { discard_if = max_if s.discard_if outdated }

unfoldable pub sweep_all_revisions : SweepStrategy → SweepStrategy
unfolding max_if
sweep_all_revisions s = record s { discard_if = max_if s.discard_if always }

unfoldable pub discard_outdated : SweepStrategy
unfolding discard_everything sweep_outdated
discard_outdated = sweep_outdated (discard_everything default)
