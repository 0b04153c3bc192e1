-- ===== src/Prelude/Sized.antt =====
-- Go's sized signed integers. An `int16`, `int32` or `int64` is kept as its two's complement word;
-- `signed w` reads a word of `w` bits as the integer that it stands for.
use Prim.Native.Nat.{ℕ, ◌-◌, ◌^◌}
use gomc.Prelude.Tests.{ltb, if◌then◌else◌}

-- `negsuc n` is -(n + 1).
pub data ℤ : Type 0 where
  pos : ℕ → ℤ
  negsuc : ℕ → ℤ

abbrev pub signed : ℕ → ℕ → ℤ
signed w v = if ltb v (2 ^ (w - 1)) then pos v else negsuc (2 ^ w - v - 1)
