-- ===== src/Codec/Numbers.antt =====
-- Round trips of the fixed-width and variable-length numbers.
use gomc.Prelude.{ℕ, zero, suc, ◌+◌, ◌*◌, ◌/◌, ◌%◌, ◌^◌, ◌<◌, ◌≤◌, ◌≡◌, refl, sym, ap, ◌∙◌, arith}
use gomc.Prelude.{some, pos, [], ◌∷◌, length}
use gomc.Prelude.{Bool, true, false}
use gomc.Codec.Reader
use gomc.Codec.Writer
use gomc.Codec.Reader.{Error, Read, ◌>>=◌, pure, big_endian}
use gomc.Codec.Writer.{put_big_endian}
use gomc.Codec.Reads.{Reads, take-Reads, map-Reads}
use mathlib.Core.Path.{subst}
use mathlib.Core.List.{foldl}
use native.Mathlib.Nat.{
  pow-suc, one-le-pow, mul_comm, div-add-mod, mod-lt, mod-eq_of_lt, mul-add-mod_self_left,
}

length-put : (n v : ℕ) → length (put_big_endian n v) ≡ n
length-put zero v = refl
length-put (suc n) v = ap suc (length-put n v)

abbrev push : ℕ → ℕ → ℕ
push v b = v * 256 + b

-- The quotient's low byte and the remainder make the remainder by the wider modulus.
mod_step : (p v : ℕ) → 0 < p → v / p % 256 * p + v % p ≡ v % (256 * p)
mod_step p v h = sym (
    ap (λ (t : ℕ). t % (256 * p)) whole
    ∙ mul-add-mod_self_left (256 * p) (v / p / 256) low
    ∙ mod-eq_of_lt fits)
  where
    low : ℕ
    low = v / p % 256 * p + v % p

    whole : v ≡ 256 * p * (v / p / 256) + low
    whole = omega (arith, div-add-mod v p, ap (λ (t : ℕ). p * t) (div-add-mod (v / p) 256))

    top_byte : (t : ℕ) → t < 256 → t * p ≤ 255 * p
    top_byte t lt = grind arith

    fits : low < 256 * p
    fits = omega (arith, mod-lt v h, top_byte (v / p % 256) (omega arith))

foldl-put : (n v acc : ℕ) → foldl push acc (put_big_endian n v) ≡ acc * 256 ^ n + v % 256 ^ n
foldl-put zero v acc = omega arith
foldl-put (suc n) v acc =
    foldl-put n v (push acc (v / 256 ^ n % 256))
    ∙ omega (
      arith,
      mod_step (256 ^ n) v (one-le-pow n 256 (omega arith)),
      ap (λ (t : ℕ). acc * t) (pow-suc 256 n),
      ap (λ (t : ℕ). v % t) (pow-suc 256 n),
      ap (λ (t : ℕ). v % t) (mul_comm (256 ^ n) 256),
    )

pub big_endian-put : (n v : ℕ) → v < 256 ^ n → big_endian (put_big_endian n v) ≡ v
big_endian-put n v h = omega (arith, foldl-put n v 0, mod-eq_of_lt h)

pub fixed-Reads : (n v : ℕ) → v < 256 ^ n → Reads (Reader.fixed n) (put_big_endian n v) v
unfolding Reader.fixed
fixed-Reads n v h =
    subst (λ t. Reads (Reader.fixed n) (put_big_endian n v) t) (big_endian-put n v h)
      (map-Reads _ taken)
  where
    taken : Reads (Reader.take (pos n)) (put_big_endian n v) (some (put_big_endian n v))
    taken =
        subst (λ t. Reads (Reader.take (pos t)) (put_big_endian n v) (some (put_big_endian n v)))
          (length-put n v) (take-Reads (put_big_endian n v))

-- One byte.
pub raw_byte-Reads : (b : ℕ) → Reads Reader.raw_byte (b ∷ []) b
unfolding Reader.raw_byte
raw_byte-Reads b = map-Reads _ (take-Reads (b ∷ []))

pub bool-Reads : (v : Bool) → Reads Reader.bool (Writer.bool v) v
unfolding Reader.bool Writer.bool
bool-Reads true = map-Reads _ (raw_byte-Reads 1)
bool-Reads false = map-Reads _ (raw_byte-Reads 0)
