-- ===== src/Base/Words.antt =====
-- 64-bit machine words as bit patterns: the wrapping operations of `usize`, `isize` and `u64`, and
-- the two's complement reading of `isize`.
use Prim.Native.Nat.{ℕ, ◌+◌, ◌-◌, ◌*◌, ◌%◌, ◌^◌}
use mathlib.Core.Bool.{Bool}
use ws_deque.Base.Tests.{leb, if◌then◌else◌}

abbrev pub word : ℕ
word = 2 ^ 64

abbrev pub wrapping_add : ℕ → ℕ → ℕ
wrapping_add a b = (a + b) % word

abbrev pub wrapping_sub : ℕ → ℕ → ℕ
wrapping_sub a b = (a + word - b) % word

abbrev pub wrapping_mul : ℕ → ℕ → ℕ
wrapping_mul a b = (a * b) % word

-- The sign bit of an `isize`.
abbrev pub is_negative : ℕ → Bool
is_negative x = leb (2 ^ 63) x

-- Comparison of two `isize` values given as bit patterns.
abbrev pub isize_le : ℕ → ℕ → Bool
isize_le a b = leb ((a + 2 ^ 63) % word) ((b + 2 ^ 63) % word)

-- `x.max(0) as usize` of an `isize`.
abbrev pub max_zero : ℕ → ℕ
max_zero x = if is_negative x then 0 else x
