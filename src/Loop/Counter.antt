-- ===== src/Loop/Counter.antt =====
-- `ScopedCounter<int>` (scoped_counter.h and scoped_counter.tcc). An int is kept as its residue
-- modulo 2^32, so that an adjustment by -1 adds 2^32 - 1.
use kaiu.Base.{ℕ, ◌+◌, ◌-◌, ◌%◌, ◌^◌, ◌<◌, ◌≡◌, Bool, ◌==◌, if◌then◌else◌, arith}

abbrev pub int : ℕ → ℕ
int n = n % 2 ^ 32

abbrev pub negative : ℕ → ℕ
negative delta = int (2 ^ 32 - delta)

-- `adjust`.
unfoldable pub adjust : ℕ → ℕ → ℕ
adjust delta value = if delta == 0 then value else int (value + delta)

-- A `ScopedAdjustment`: its constructor, and its destructor.
unfoldable pub enter : ℕ → ℕ → ℕ
unfolding adjust
enter delta value = adjust delta value

unfoldable pub leave : ℕ → ℕ → ℕ
unfolding adjust
leave delta value = adjust (negative delta) value

abbrev pub is_zero : ℕ → Bool
is_zero value = value == 0

-- The destructor of an adjustment takes back what its constructor did, whatever the amount and the
-- value, an overflow included.
pub leave-enter :
    (delta value : ℕ) → delta < 2 ^ 32 → value < 2 ^ 32 → leave delta (enter delta value) ≡ value
unfolding enter leave adjust
leave-enter delta value h k = ground arith

pub enter_one : (value : ℕ) → value < 2 ^ 32 - 1 → enter 1 value ≡ value + 1
unfolding enter adjust
enter_one value h = ground arith

pub leave_one : (value : ℕ) → 0 < value → value < 2 ^ 32 → leave 1 value + 1 ≡ value
unfolding leave adjust
leave_one value h k = ground arith
