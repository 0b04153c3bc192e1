-- ===== src/Nbt/Masks.antt =====
-- The masks of mutf8.go as arithmetic.
use gomc.Prelude.{
  ℕ, zero, suc, ◌+◌, ◌*◌, ◌/◌, ◌%◌, ◌^◌, ◌<◌, ◌≡◌, ◌∙◌, sym, ap, arith, bit_and, bit_or,
}
use gomc.Prelude.Bits.{bit_and_step, bit_and_mask, bit_or_fields}
use native.Mathlib.Nat.{pow-suc, mul_assoc, mul_comm, div-div-eq-div-mul}

bit_and_double : (a d : ℕ) → bit_and a (d * 2) ≡ bit_and (a / 2) d * 2
bit_and_double a d = ground (arith, bit_and_step a (d * 2))

pow_double : (x k : ℕ) → x * 2 ^ suc k ≡ x * 2 ^ k * 2
pow_double x k = ap (λ n. x * n) (pow-suc 2 k) ∙ sym (mul_assoc x (2 ^ k) 2)

pow_halve : (a k : ℕ) → a / 2 / 2 ^ k ≡ a / 2 ^ suc k
pow_halve a k =
    div-div-eq-div-mul a 2 (2 ^ k) ∙ ap (λ n. a / n) (mul_comm 2 (2 ^ k) ∙ sym (pow-suc 2 k))

-- A mask of high bits.
pub bit_and_high : (k a b : ℕ) → bit_and a (b * 2 ^ k) ≡ bit_and (a / 2 ^ k) b * 2 ^ k
bit_and_high zero a b = ground arith
bit_and_high (suc k) a b =
    ap (bit_and a) (pow_double b k)
    ∙ bit_and_double a (b * 2 ^ k)
    ∙ ap (λ n. n * 2) (bit_and_high k (a / 2) b)
    ∙ sym (pow_double (bit_and (a / 2 / 2 ^ k) b) k)
    ∙ ap (λ n. bit_and n b * 2 ^ suc k) (pow_halve a k)

-- The leading bits of a byte.
pub top_one : (a : ℕ) → bit_and a 0x80 ≡ a / 128 % 2 * 128
top_one a = omega (arith, bit_and_high 7 a 1, bit_and_mask 1 (a / 128))

pub top_two : (a : ℕ) → bit_and a 0xc0 ≡ a / 64 % 4 * 64
top_two a = omega (arith, bit_and_high 6 a 3, bit_and_mask 2 (a / 64))

pub top_three : (a : ℕ) → bit_and a 0xe0 ≡ a / 32 % 8 * 32
top_three a = omega (arith, bit_and_high 5 a 7, bit_and_mask 3 (a / 32))

pub top_four : (a : ℕ) → bit_and a 0xf0 ≡ a / 16 % 16 * 16
top_four a = omega (arith, bit_and_high 4 a 15, bit_and_mask 4 (a / 16))

pub low_four : (a : ℕ) → bit_and a 0x0f ≡ a % 16
low_four a = bit_and_mask 4 a

pub low_five : (a : ℕ) → bit_and a 0x1f ≡ a % 32
low_five a = bit_and_mask 5 a

pub low_six : (a : ℕ) → bit_and a 0x3f ≡ a % 64
low_six a = bit_and_mask 6 a

-- What the encoder joins.
pub join_80 : (x : ℕ) → x < 64 → bit_or 0x80 x ≡ 128 + x
join_80 x h = omega (arith, bit_or_fields 6 2 x h)

pub join_c0 : (x : ℕ) → x < 32 → bit_or 0xc0 x ≡ 192 + x
join_c0 x h = omega (arith, bit_or_fields 5 6 x h)

pub join_e0 : (x : ℕ) → x < 16 → bit_or 0xe0 x ≡ 224 + x
join_e0 x h = omega (arith, bit_or_fields 4 14 x h)

-- What the decoder joins.
pub join_two : (x y : ℕ) → y < 64 → bit_or (x * 2 ^ 6) y ≡ x * 64 + y
join_two x y h = bit_or_fields 6 x y h

pub join_three :
    (x y z : ℕ)
    → y < 64
    → z < 64
    → bit_or (bit_or (x * 2 ^ 12) (y * 2 ^ 6)) z ≡ x * 4096 + y * 64 + z
join_three x y z hy hz =
    let shifted : x * 2 ^ 12 + y * 2 ^ 6 ≡ (x * 64 + y) * 2 ^ 6 = omega arith in
    let total : (x * 64 + y) * 2 ^ 6 + z ≡ x * 4096 + y * 64 + z = omega arith in
    ap (λ t. bit_or t z) (bit_or_fields 12 x (y * 2 ^ 6) (omega arith) ∙ shifted)
    ∙ bit_or_fields 6 (x * 64 + y) z hz
    ∙ total
