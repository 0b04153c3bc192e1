-- ===== src/Hub/Floats.antt =====
-- The arithmetic of Go's floats that internal/game/loop/hub.go uses, which is no code of this
-- repository. A float is the word of its bits.
use gomc.Prelude.{ℕ, ◌^◌, ◌<◌, ◌≡◌, Bool, true}

pub record Floats : Type 0 where
  -- float64: `a + b`, `a - b`, `a * b`, `a / b`, `a == b` and `a <= b`.
  pub add : ℕ → ℕ → ℕ
  pub sub : ℕ → ℕ → ℕ
  pub mul : ℕ → ℕ → ℕ
  pub div : ℕ → ℕ → ℕ
  pub eq : ℕ → ℕ → Bool
  pub le : ℕ → ℕ → Bool
  -- `int16(a)`, and `float64(d)` of an int16.
  pub to_int16 : ℕ → ℕ
  pub of_int16 : ℕ → ℕ
  -- float32: `a * b`, `a / b` and `int32(a)`.
  pub mul32 : ℕ → ℕ → ℕ
  pub div32 : ℕ → ℕ → ℕ
  pub to_int32 : ℕ → ℕ

-- What the hub relies on: a sum is a word of 64 bits, an int16 one of 16, and the int16 of a float
-- that equals zero is zero.
pub record FloatLaws (fl : Floats) : Type 0 where
  pub add-lt : (a b : ℕ) → fl.add a b < 2 ^ 64
  pub to_int16-lt : (a : ℕ) → fl.to_int16 a < 2 ^ 16
  pub to_int16_zero : (a : ℕ) → fl.eq a 0 ≡ true → fl.to_int16 a ≡ 0
