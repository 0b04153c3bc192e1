-- ===== src/Nbt/Runes.antt =====
-- UTF-16 and, through it, modified UTF-8 there and back, for a text of runes.
use gomc.Prelude.{ℕ, ◌+◌, ◌-◌, ◌*◌, ◌/◌, ◌%◌, ◌^◌, ◌<◌, ◌≤◌, ◌≡◌, ◌∙◌, refl, sym, ap, arith}
use gomc.Prelude.{true, false, List, [], ◌∷◌, ◌++◌, All, none, some}
use gomc.Prelude.{inl, inr, ◌⊎◌}
use mathlib.Core.List.{flat_map}
use mathlib.Core.Path.{subst}
use gomc.Nbt.Mutf8.{units_of_rune, utf16_encode, utf16_decode, encode_mutf8, decode_mutf8, is_high}
use gomc.Nbt.Mutf8.{is_low}
use gomc.Nbt.Text.{units_from-encode}

-- A code point that is no surrogate.
abbrev pub IsRune : ℕ → Type 0
IsRune r = (r < 0xd800) ⊎ ((0xe000 ≤ r) × (r < 0x11_0000))

abbrev pub IsText : List ℕ → Type 0
IsText = All IsRune

decode_plain :
    (u : ℕ) (us : List ℕ)
    → is_high u ≡ false
    → is_low u ≡ false
    → utf16_decode (u ∷ us) ≡ u ∷ utf16_decode us
unfolding utf16_decode
decode_plain u [] h l = rw (h, l) refl
decode_plain u (v ∷ us) h l = rw (h, l) refl

decode_pair :
    (u v : ℕ) (us : List ℕ)
    → is_high u ≡ true
    → is_low v ≡ true
    → utf16_decode (u ∷ v ∷ us) ≡ (0x1_0000 + (u - 0xd800) * 0x400 + (v - 0xdc00)) ∷ utf16_decode us
unfolding utf16_decode
decode_pair u v us h l = rw (h, l) refl

-- A rune within the first plane, and one beyond it.
encode_plain : (r : ℕ) → IsRune r → r < 0x1_0000 → units_of_rune r ≡ r ∷ []
unfolding units_of_rune
encode_plain r rune low = ground arith

encode_pair :
    (r : ℕ)
    → 0x1_0000 ≤ r
    → r < 0x11_0000
    → units_of_rune r ≡ (0xd800 + (r - 0x1_0000) / 0x400) ∷ (0xdc00 + (r - 0x1_0000) % 0x400) ∷ []
unfolding units_of_rune
encode_pair r low high = ground arith

planes : (r : ℕ) → (r < 0x1_0000) ⊎ (0x1_0000 ≤ r)
planes r = ground arith

decode-rune :
    (r : ℕ) (us : List ℕ) → IsRune r → utf16_decode (units_of_rune r ++ us) ≡ r ∷ utf16_decode us
decode-rune r us rune = elim (planes r) [
  | inl low ↦
      ap (λ l. utf16_decode (l ++ us)) (encode_plain r rune low)
      ∙ decode_plain r us (ground arith) (ground arith)
  | inr high ↦
      let whole : 0x1_0000
            + (0xd800 + (r - 0x1_0000) / 0x400 - 0xd800) * 0x400
            + (0xdc00 + (r - 0x1_0000) % 0x400 - 0xdc00)
          ≡ r =
        ground arith in
      ap (λ l. utf16_decode (l ++ us)) (encode_pair r high (ground arith))
      ∙ decode_pair _ _ us (ground arith) (ground arith)
      ∙ ap (λ n. n ∷ utf16_decode us) whole
]

utf16_decode-utf16_encode : (s : List ℕ) → IsText s → utf16_decode (utf16_encode s) ≡ s
unfolding utf16_encode flat_map
utf16_decode-utf16_encode [] h = unfold utf16_decode in refl
utf16_decode-utf16_encode (r ∷ rs) (h, hs) =
    decode-rune r (utf16_encode rs) h ∙ ap (λ l. r ∷ l) (utf16_decode-utf16_encode rs hs)

abbrev AreUnits : List ℕ → Type 0
AreUnits = All (λ u. u < 2 ^ 16)

append-AreUnits : (us vs : List ℕ) → AreUnits us → AreUnits vs → AreUnits (us ++ vs)
append-AreUnits [] vs hu hv = hv
append-AreUnits (u ∷ us) vs (h, hs) hv = (h, append-AreUnits us vs hs hv)

units_of_rune-AreUnits : (r : ℕ) → IsRune r → AreUnits (units_of_rune r)
units_of_rune-AreUnits r rune = elim (planes r) [
  | inl low ↦ subst AreUnits (sym (encode_plain r rune low)) (low, tt)
  | inr high ↦
      subst AreUnits (sym (encode_pair r high (ground arith))) (ground arith, (ground arith, tt))
]

utf16_encode-AreUnits : (s : List ℕ) → IsText s → AreUnits (utf16_encode s)
unfolding utf16_encode flat_map
utf16_encode-AreUnits [] h = tt
utf16_encode-AreUnits (r ∷ rs) (h, hs) =
    append-AreUnits (units_of_rune r) (utf16_encode rs) (units_of_rune-AreUnits r h)
      (utf16_encode-AreUnits rs hs)

-- A text of runes, none of them a surrogate, is read back from its modified UTF-8.
pub decode_mutf8-encode_mutf8 : (s : List ℕ) → IsText s → decode_mutf8 (encode_mutf8 s) ≡ some s
unfolding decode_mutf8 encode_mutf8
decode_mutf8-encode_mutf8 s h =
    ap (λ o. elim o [ none ↦ none | some us ↦ some (utf16_decode us) ])
      (units_from-encode (utf16_encode s) (utf16_encode-AreUnits s h))
    ∙ ap some (utf16_decode-utf16_encode s h)
