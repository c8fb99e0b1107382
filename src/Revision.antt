-- ===== src/Revision.antt =====
-- src/revision.rs: revision numbers, and the counter that holds one.
use salsa.Base.{ℕ, ◌+◌, ◌-◌, ◌%◌, ◌^◌, Option, none, some, ◌==◌, if◌then◌else◌}

-- `Revision`: a `NonZeroU64`, kept as a number.
abbrev pub Revision : Type 0
Revision = ℕ

abbrev pub u64_mod : ℕ
u64_mod = 2 ^ 64

-- `START_U64` and `Revision::start`.
abbrev pub start : Revision
start = 1

-- `Revision::from`: `none` stands for the panic of `unwrap`.
unfoldable pub from : ℕ → Option Revision
from g = if g == 0 then none else some g

-- `Revision::next`. The sum wraps to 0 at the end of the range, which `from` refuses.
unfoldable pub next : Revision → Option Revision
unfolding from
next r = from ((r + 1) % u64_mod)

-- `AtomicRevision::fetch_then_increment`: the counter afterwards, and the previous value, or the
-- panic `revision overflow`.
unfoldable pub fetch_then_increment : ℕ → ℕ × Option Revision
unfolding from
fetch_then_increment v = ((v + 1) % u64_mod, if v == u64_mod - 1 then none else from v)
