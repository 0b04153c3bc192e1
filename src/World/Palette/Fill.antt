-- ===== src/World/Palette/Fill.antt =====
-- The number that holds some entries, the lowest bits first, as the loop of `writeLongs` builds it.
use gomc.Prelude.{
  ℕ, zero, suc, ◌+◌, ◌-◌, ◌*◌, ◌/◌, ◌%◌, ◌^◌, ◌<◌, ◌≤◌, ◌≡◌, refl, sym, ap, ◌∙◌, arith,
}
use gomc.Prelude.{List, [], ◌∷◌, ◌++◌, length, All}
use gomc.Prelude.{bit_or, bit_and}
use gomc.Prelude.Bits.{bit_or_disjoint, bit_and_mask}
use native.Mathlib.Nat.{
  mod-eq_of_lt, mul-lt-mul_of_pos_right, mul_assoc, mul-suc, mod_def, add-mul-div_left,
  div-eq_of_lt, pow-suc, one-le-pow, mul-le-mul_left, pow-le-pow_right,
}

-- The number with these entries, the lowest first.
unfoldable pub fill : ℕ → List ℕ → ℕ
fill bits [] = 0
fill bits (e ∷ es) = e + 2 ^ bits * fill bits es

pow_add : (a b : ℕ) → 2 ^ (a + b) ≡ 2 ^ a * 2 ^ b
pow_add a zero = let same : a + 0 ≡ a = omega arith in rw same (omega arith)
pow_add a (suc b) =
    let next : a + suc b ≡ suc (a + b) = omega arith in
    rw next (
      omega (
        arith,
        pow-suc 2 (a + b),
        pow_add a b,
        mul_assoc (2 ^ a) (2 ^ b) 2,
        ap (λ (t : ℕ). 2 ^ a * t) (pow-suc 2 b),
      ))

pub split_fill : (w e t : ℕ) → e < w → ((e + w * t) % w ≡ e) × ((e + w * t) / w ≡ t)
split_fill w e t h =
    let quotient : (e + w * t) / w ≡ t =
      omega (arith, add-mul-div_left e t {y = w} (omega arith), div-eq_of_lt h) in
    (omega (arith, mod_def (e + w * t) w, ap (λ (q : ℕ). w * q) quotient), quotient)

module _ (bits : ℕ) where
  weight_zero : 2 ^ (0 * bits) ≡ 1
  weight_zero = let none : 0 * bits ≡ 0 = omega arith in rw none refl

  -- The weight of the entry after `n`.
  weight_suc : (n : ℕ) → 2 ^ (suc n * bits) ≡ 2 ^ bits * 2 ^ (n * bits)
  weight_suc n =
      let sum : suc n * bits ≡ bits + n * bits = grind arith in rw sum (pow_add bits (n * bits))

  pub fill-lt : (es : List ℕ) → All (λ e. e < 2 ^ bits) es → fill bits es < 2 ^ (length es * bits)
  unfolding fill
  fill-lt [] h = omega (arith, weight_zero)
  fill-lt (e ∷ es) (he, h) = rw (weight_suc (length es)) (below (2 ^ bits) e _ _ he (fill-lt es h))
    where
      below : (w e t u : ℕ) → e < w → t < u → e + w * t < w * u
      below w e t u he ht = omega (arith, mul-le-mul_left w ht, mul-suc w t)

  fill-append :
      (es : List ℕ) (e : ℕ) → fill bits (es ++ (e ∷ [])) ≡ fill bits es + e * 2 ^ (length es * bits)
  unfolding fill
  fill-append [] e = rw weight_zero (omega arith)
  fill-append (d ∷ es) e =
      rw (weight_suc (length es), fill-append es e)
        (arranged d (2 ^ bits) (fill bits es) e (2 ^ (length es * bits)))
    where
      arranged : (d w f e u : ℕ) → d + w * (f + e * u) ≡ d + w * f + e * (w * u)
      arranged d w f e u = grind arith

  pub weight_fits : (n : ℕ) → n * bits ≤ 64 → 2 ^ (n * bits) ≤ 2 ^ 64
  weight_fits n h = pow-le-pow_right (omega arith) h

  -- One round of the writer's loop adds an entry.
  pub add_entry :
      (es : List ℕ) (e : ℕ)
      → All (λ d. d < 2 ^ bits) es
      → e < 2 ^ bits
      → suc (length es) * bits ≤ 64
      → bit_or (fill bits es) (bit_and e (2 ^ bits - 1) * 2 ^ (length es * bits) % 2 ^ 64)
        ≡ fill bits (es ++ (e ∷ []))
  add_entry es e h he room =
      let masked : bit_and e (2 ^ bits - 1) ≡ e = bit_and_mask bits e ∙ mod-eq_of_lt he in
      let shifted : e * 2 ^ (length es * bits) % 2 ^ 64 ≡ e * 2 ^ (length es * bits) =
        mod-eq_of_lt (
          omega (
            arith,
            mul-lt-mul_of_pos_right he (one-le-pow (length es * bits) 2 (omega arith)),
            weight_suc (length es),
            weight_fits (suc (length es)) room,
          )) in
      rw (masked, shifted)
        (bit_or_disjoint (length es * bits) (fill bits es) e (fill-lt es h)
          ∙ sym (fill-append es e))
