-- ===== src/Base/Words.antt =====
-- Machine words: what Rust's integer operations do at the edge of a width.
use Prim.Native.Nat.{ℕ, ◌+◌, ◌*◌, ◌/◌, ◌%◌, ◌^◌, min}
use dbm.Base.Tests.{ltb, ◌==◌, if◌then◌else◌}

abbrev pub u16_max : ℕ
u16_max = 65535

-- `x as u16`
abbrev pub as_u16 : ℕ → ℕ
as_u16 n = n % 2 ^ 16

-- `a.saturating_add(b)` on u16
abbrev pub sat_add16 : ℕ → ℕ → ℕ
sat_add16 a b = min (a + b) u16_max

-- `a * b` on u64, as a release build computes it
abbrev pub mul_u64 : ℕ → ℕ → ℕ
mul_u64 a b = (a * b) % 2 ^ 64

-- `a.div_ceil(b)`, for b > 0
abbrev pub div_ceil : ℕ → ℕ → ℕ
div_ceil a b = if a % b == 0 then a / b else a / b + 1

-- `x.clamp(lo, hi)`, for lo ≤ hi
abbrev pub clamp : ℕ → ℕ → ℕ → ℕ
clamp x lo hi = if ltb x lo then lo else if ltb hi x then hi else x
