-- ===== src/Codec/Utf8.antt =====
-- What the codec uses of unicode/utf8: `Valid`, by the table of well-formed byte sequences.
use gomc.Prelude.{ℕ, List, [], ◌∷◌, Bool, true, false, ◌&&◌, ltb, leb, ◌==◌, if◌then◌else◌}

abbrev pub within : ℕ → ℕ → ℕ → Bool
within lo hi b = leb lo b && leb b hi

abbrev pub tail : ℕ → Bool
tail = within 0x80 0xbf

-- The second byte has a narrower range after some leading bytes: no overlong form, no surrogate,
-- nothing above U+10FFFF.
abbrev pub second_of_three : ℕ → ℕ → Bool
second_of_three a b =
    if a == 0xe0 then within 0xa0 0xbf b else if a == 0xed then within 0x80 0x9f b else tail b

abbrev pub second_of_four : ℕ → ℕ → Bool
second_of_four a b =
    if a == 0xf0 then within 0x90 0xbf b else if a == 0xf4 then within 0x80 0x8f b else tail b

unfoldable pub valid : List ℕ → Bool
valid [] = true
valid (a ∷ []) = ltb a 0x80
valid (a ∷ b ∷ []) = if ltb a 0x80 then valid (b ∷ []) else within 0xc2 0xdf a && tail b
valid (a ∷ b ∷ c ∷ []) =
    if ltb a 0x80
    then valid (b ∷ c ∷ [])
    else if within 0xc2 0xdf a
    then tail b && valid (c ∷ [])
    else within 0xe0 0xef a && second_of_three a b && tail c
valid (a ∷ b ∷ c ∷ d ∷ s) =
    let one = valid (b ∷ c ∷ d ∷ s) in
    let two = valid (c ∷ d ∷ s) in
    let three = valid (d ∷ s) in
    let four = valid s in
    if ltb a 0x80
    then one
    else if within 0xc2 0xdf a
    then (if tail b then two else false)
    else if within 0xe0 0xef a
    then (if second_of_three a b && tail c then three else false)
    else if within 0xf0 0xf4 a && second_of_four a b && (tail c && tail d)
    then four
    else false
