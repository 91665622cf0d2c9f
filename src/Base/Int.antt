-- ===== src/Base/Int.antt =====
-- Signed numbers, as the program's i16 and i32 arithmetic uses them.
use Prim.Native.Nat.{ℕ, ◌+◌, ◌-◌}
use mathlib.Core.Option.{Option, none, some}
use dbm.Base.Tests.{ltb, leb, if◌then◌else◌}

-- `negsuc n` is -(n + 1).
pub data ℤ : Type 0 where
  pos : ℕ → ℤ
  negsuc : ℕ → ℤ

-- a - b
abbrev pub sub_ℕ : ℕ → ℕ → ℤ
sub_ℕ a b = if leb b a then pos (a - b) else negsuc (b - a - 1)

abbrev pub neg : ℤ → ℤ
neg (pos n) = sub_ℕ 0 n
neg (negsuc n) = pos (n + 1)

-- n + d
abbrev pub shift : ℕ → ℤ → ℤ
shift n (pos d) = pos (n + d)
shift n (negsuc d) = sub_ℕ n (d + 1)

-- `x.clamp(lo, hi)` for bounds that are not negative; it panics, here `none`, where they cross.
abbrev pub clamp_checked : ℤ → ℕ → ℕ → Option ℕ
clamp_checked x lo hi =
    if ltb hi lo
    then none
    else some
        (elim x [ pos n ↦ if ltb n lo then lo else if ltb hi n then hi else n | negsuc n ↦ lo ])
