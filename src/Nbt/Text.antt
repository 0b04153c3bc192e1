-- ===== src/Nbt/Text.antt =====
-- Modified UTF-8 and UTF-16 there and back.
use gomc.Prelude.{ℕ, suc, ◌+◌, ◌*◌, ◌/◌, ◌%◌, ◌^◌, ◌<◌, ◌≤◌, ◌≡◌, ◌∙◌, refl, ap, arith}
use gomc.Prelude.{
  bit_and, bit_or, ltb, leb, ◌==◌, ◌&&◌, ◌||◌, true, false, List, [], ◌∷◌, ◌++◌, All,
}
use gomc.Prelude.{Option, none, some, inl, inr, ◌⊎◌, length}
use mathlib.Core.List.{flat_map}
use gomc.Nbt.Masks.{top_one, top_two, top_three, top_four, low_four, low_five, low_six}
use gomc.Nbt.Masks.{join_80, join_c0, join_e0, join_two, join_three}
use gomc.Nbt.Mutf8.{first_unit, units_from, encode_unit}

-- The bytes of one, two and three to a unit.
module _ (bs : List ℕ) where
  first_one : (a : ℕ) → a < 128 → first_unit a bs ≡ some (a, 0)
  unfolding first_unit
  first_one a h = let e : (bit_and a 0x80 == 0) ≡ true = ground (arith, top_one a) in rw e refl

  first_two :
      (x y : ℕ) → x < 32 → y < 64 → first_unit (192 + x) ((128 + y) ∷ bs) ≡ some (x * 64 + y, 1)
  unfolding first_unit
  first_two x y hx hy =
      let e : (bit_and (192 + x) 0x80 == 0) ≡ false = ground (arith, top_one (192 + x)) in
      let f : (bit_and (192 + x) 0xe0 == 0xc0) ≡ true = ground (arith, top_three (192 + x)) in
      let g : (bit_and (128 + y) 0xc0 == 0x80) ≡ true = ground (arith, top_two (128 + y)) in
      let l : ltb 0 (length ((128 + y) ∷ bs)) ≡ true = ground arith in
      let p : bit_and (192 + x) 0x1f ≡ x = omega (arith, low_five (192 + x)) in
      let q : bit_and (128 + y) 0x3f ≡ y = omega (arith, low_six (128 + y)) in
      rw (e, f, l, g, p, q) (ap (λ u. some (u, 1)) (join_two x y hy))

  first_three :
      (x y z : ℕ)
      → x < 16
      → y < 64
      → z < 64
      → first_unit (224 + x) ((128 + y) ∷ (128 + z) ∷ bs) ≡ some (x * 4096 + y * 64 + z, 2)
  unfolding first_unit
  first_three x y z hx hy hz =
      let e : (bit_and (224 + x) 0x80 == 0) ≡ false = ground (arith, top_one (224 + x)) in
      let f : (bit_and (224 + x) 0xe0 == 0xc0) ≡ false = ground (arith, top_three (224 + x)) in
      let q : (bit_and (224 + x) 0xf0 == 0xe0) ≡ true = ground (arith, top_four (224 + x)) in
      let g : (bit_and (128 + y) 0xc0 == 0x80) ≡ true = ground (arith, top_two (128 + y)) in
      let k : (bit_and (128 + z) 0xc0 == 0x80) ≡ true = ground (arith, top_two (128 + z)) in
      let l : ltb 0 (length ((128 + y) ∷ (128 + z) ∷ bs)) ≡ true = ground arith in
      let l' : ltb 1 (length ((128 + y) ∷ (128 + z) ∷ bs)) ≡ true = ground arith in
      let a : bit_and (224 + x) 0x0f ≡ x = omega (arith, low_four (224 + x)) in
      let b : bit_and (128 + y) 0x3f ≡ y = omega (arith, low_six (128 + y)) in
      let c : bit_and (128 + z) 0x3f ≡ z = omega (arith, low_six (128 + z)) in
      rw (e, f, q, g, k, l, l', a, b, c) (ap (λ u. some (u, 2)) (join_three x y z hy hz))

abbrev prepend : ℕ → Option (List ℕ) → Option (List ℕ)
prepend c o = elim o [ none ↦ none | some us ↦ some (c ∷ us) ]

-- The rest of the loop, from what comes first.
abbrev onwards : List ℕ → Option (ℕ × ℕ) → Option (List ℕ)
onwards bs o = elim o [ none ↦ none | some (unit, more) ↦ prepend unit (units_from more bs) ]

units_from_first :
    (a c n : ℕ) (bs : List ℕ)
    → first_unit a bs ≡ some (c, n)
    → units_from 0 (a ∷ bs) ≡ prepend c (units_from n bs)
unfolding units_from
units_from_first a c n bs h = ap (onwards bs) h

units_from_skip : (n a : ℕ) (bs : List ℕ) → units_from (suc n) (a ∷ bs) ≡ units_from n bs
unfolding units_from
units_from_skip n a bs = refl

encode_one : (c : ℕ) → (leb 1 c && leb c 0x7f) ≡ true → encode_unit c ≡ c ∷ []
unfolding encode_unit
encode_one c one = rw one refl

encode_two :
    (c : ℕ)
    → (leb 1 c && leb c 0x7f) ≡ false
    → (c == 0 || leb c 0x7ff) ≡ true
    → c < 2048
    → encode_unit c ≡ (192 + c / 64) ∷ (128 + c % 64) ∷ []
unfolding encode_unit
encode_two c one two small =
    let a : bit_or 0xc0 (c / 2 ^ 6) ≡ 192 + c / 64 = join_c0 (c / 64) (omega arith) in
    let b : bit_or 0x80 (bit_and c 0x3f) ≡ 128 + c % 64 =
      ap (bit_or 0x80) (low_six c) ∙ join_80 (c % 64) (omega arith) in
    rw (one, two, a, b) refl

encode_three :
    (c : ℕ)
    → (leb 1 c && leb c 0x7f) ≡ false
    → (c == 0 || leb c 0x7ff) ≡ false
    → c < 2 ^ 16
    → encode_unit c ≡ (224 + c / 4096) ∷ (128 + c / 64 % 64) ∷ (128 + c % 64) ∷ []
unfolding encode_unit
encode_three c one two small =
    let a : bit_or 0xe0 (c / 2 ^ 12) ≡ 224 + c / 4096 = join_e0 (c / 4096) (omega arith) in
    let b : bit_or 0x80 (bit_and (c / 2 ^ 6) 0x3f) ≡ 128 + c / 64 % 64 =
      ap (bit_or 0x80) (low_six (c / 64)) ∙ join_80 (c / 64 % 64) (omega arith) in
    let d : bit_or 0x80 (bit_and c 0x3f) ≡ 128 + c % 64 =
      ap (bit_or 0x80) (low_six c) ∙ join_80 (c % 64) (omega arith) in
    rw (one, two, a, b, d) refl

-- A unit's bytes are read back, whatever follows.
units_from-encode_unit :
    (c : ℕ) (bs : List ℕ)
    → c < 2 ^ 16
    → units_from 0 (encode_unit c ++ bs) ≡ prepend c (units_from 0 bs)
units_from-encode_unit c bs h = elim (sizes c) [
  | inl (one, small) ↦
      ap (λ l. units_from 0 (l ++ bs)) (encode_one c one)
      ∙ units_from_first c c 0 bs (first_one bs c small)
  | inr (inl (one, (two, small))) ↦
      let whole : c / 64 * 64 + c % 64 ≡ c = omega arith in
      ap (λ l. units_from 0 (l ++ bs)) (encode_two c one two small)
      ∙ units_from_first _ _ 1 _ (first_two bs (c / 64) (c % 64) (omega arith) (omega arith))
      ∙ ap (prepend _) (units_from_skip 0 _ bs)
      ∙ ap (λ u. prepend u (units_from 0 bs)) whole
  | inr (inr (one, (two, big))) ↦
      let whole : c / 4096 * 4096 + c / 64 % 64 * 64 + c % 64 ≡ c = omega arith in
      ap (λ l. units_from 0 (l ++ bs)) (encode_three c one two h)
      ∙ units_from_first _ _ 2 _ (
          first_three bs (c / 4096) (c / 64 % 64) (c % 64) (omega arith) (omega arith)
            (omega arith))
      ∙ ap (prepend _) (units_from_skip 1 _ _ ∙ units_from_skip 0 _ bs)
      ∙ ap (λ u. prepend u (units_from 0 bs)) whole
]
  where
    sizes :
        (c : ℕ)
        → (((leb 1 c && leb c 0x7f) ≡ true) × (c < 128))
          ⊎ ((((leb 1 c && leb c 0x7f) ≡ false) × (((c == 0 || leb c 0x7ff) ≡ true) × (c < 2048)))
              ⊎ (((leb 1 c && leb c 0x7f) ≡ false)
                  × (((c == 0 || leb c 0x7ff) ≡ false) × (2048 ≤ c))))
    sizes c = ground arith

-- Any units are read back.
pub units_from-encode :
    (us : List ℕ) → All (λ u. u < 2 ^ 16) us → units_from 0 (flat_map encode_unit us) ≡ some us
unfolding flat_map
units_from-encode [] h = unfold units_from in refl
units_from-encode (u ∷ us) (h, hs) =
    units_from-encode_unit u (flat_map encode_unit us) h ∙ ap (prepend u) (units_from-encode us hs)
