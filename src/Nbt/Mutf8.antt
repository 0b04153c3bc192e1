-- ===== src/Nbt/Mutf8.antt =====
-- internal/protocol/nbt/mutf8.go: modified UTF-8, by way of UTF-16, as unicode/utf16 has it.
use gomc.Prelude.{
  ℕ, zero, suc, ◌+◌, ◌-◌, ◌*◌, ◌/◌, ◌%◌, ◌^◌, ltb, leb, ◌==◌, ◌&&◌, ◌||◌, bit_and, bit_or,
}
use gomc.Prelude.{List, [], ◌∷◌, get_or, length, Bool, Option, none, some, if◌then◌else◌}
use mathlib.Core.List.{flat_map}

-- The first and the second half of a surrogate pair.
abbrev pub is_high : ℕ → Bool
is_high u = leb 0xd800 u && ltb u 0xdc00

abbrev pub is_low : ℕ → Bool
is_low u = leb 0xdc00 u && ltb u 0xe000

-- utf16.Encode: a rune that has no code is U+FFFD.
unfoldable pub units_of_rune : ℕ → List ℕ
units_of_rune r =
    if leb 0x1_0000 r && ltb r 0x11_0000
    then (0xd800 + (r - 0x1_0000) / 0x400) ∷ (0xdc00 + (r - 0x1_0000) % 0x400) ∷ []
    else if is_high r || is_low r || leb 0x11_0000 r
    then 0xfffd ∷ []
    else r ∷ []

unfoldable pub utf16_encode : List ℕ → List ℕ
utf16_encode = flat_map units_of_rune

-- utf16.Decode: half a pair is U+FFFD.
unfoldable pub utf16_decode : List ℕ → List ℕ
utf16_decode [] = []
utf16_decode (u ∷ []) = (if is_high u || is_low u then 0xfffd else u) ∷ []
utf16_decode (u ∷ v ∷ us) =
    if is_high u && is_low v
    then (0x1_0000 + (u - 0xd800) * 0x400 + (v - 0xdc00)) ∷ utf16_decode us
    else (if is_high u || is_low u then 0xfffd else u) ∷ utf16_decode (v ∷ us)

-- The bytes of a code unit.
unfoldable pub encode_unit : ℕ → List ℕ
encode_unit c =
    if leb 1 c && leb c 0x7f
    then c ∷ []
    else if c == 0 || leb c 0x7ff
    then bit_or 0xc0 (c / 2 ^ 6) ∷ bit_or 0x80 (bit_and c 0x3f) ∷ []
    else bit_or 0xe0 (c / 2 ^ 12)
      ∷ bit_or 0x80 (bit_and (c / 2 ^ 6) 0x3f)
      ∷ bit_or 0x80 (bit_and c 0x3f)
      ∷ []

unfoldable pub encode_mutf8 : List ℕ → List ℕ
encode_mutf8 s = flat_map encode_unit (utf16_encode s)

-- `b[i]&0xC0 == 0x80`, of the bytes that are left.
abbrev continues : List ℕ → ℕ → Bool
continues bs i = ltb i (length bs) && (bit_and (get_or bs i 0) 0xc0 == 0x80)

-- The unit that the bytes from `a` on begin with, and how many of `bs` belong to it.
unfoldable pub first_unit : ℕ → List ℕ → Option (ℕ × ℕ)
first_unit a bs =
    if bit_and a 0x80 == 0
    then some (a, 0)
    else if bit_and a 0xe0 == 0xc0
    then (if continues bs 0
        then some (bit_or (bit_and a 0x1f * 2 ^ 6) (bit_and (get_or bs 0 0) 0x3f), 1)
        else none)
    else if bit_and a 0xf0 == 0xe0
    then (if continues bs 0 && continues bs 1
        then some (
          bit_or (bit_or (bit_and a 0x0f * 2 ^ 12) (bit_and (get_or bs 0 0) 0x3f * 2 ^ 6))
              (bit_and (get_or bs 1 0) 0x3f),
          2,
        )
        else none)
    else none

-- The loop of decodeMUTF8, which first passes the bytes of the last unit.
unfoldable pub units_from : ℕ → List ℕ → Option (List ℕ)
units_from skip [] = some []
units_from (suc skip) (a ∷ bs) = units_from skip bs
units_from zero (a ∷ bs) = elim (first_unit a bs) [
  | none ↦ none
  | some (unit, more) ↦ elim (units_from more bs) [ none ↦ none | some us ↦ some (unit ∷ us) ]
]

-- `none` is errBadMUTF8.
unfoldable pub decode_mutf8 : List ℕ → Option (List ℕ)
decode_mutf8 b = elim (units_from 0 b) [ none ↦ none | some us ↦ some (utf16_decode us) ]
