-- ===== src/Text/Utf8.antt =====
-- The runes of a Go string: its UTF-8, with U+FFFD for each byte that begins no well-formed sequence.
use gomc.Prelude.{ℕ, zero, suc, ◌+◌, ◌-◌, ◌*◌, ◌&&◌, ltb, List, [], ◌∷◌, length, get_or}
use gomc.Prelude.{if◌then◌else◌}
use gomc.Codec.Utf8.{within, tail, second_of_three, second_of_four}

-- The first rune of `a` and what follows, and how many more bytes it takes.
unfoldable pub first_rune : ℕ → List ℕ → ℕ × ℕ
first_rune a bs =
    let b = get_or bs 0 0 in
    let c = get_or bs 1 0 in
    let d = get_or bs 2 0 in
    if ltb a 0x80
    then (a, 0)
    else if within 0xc2 0xdf a && ltb 0 (length bs) && tail b
    then ((a - 0xc0) * 0x40 + (b - 0x80), 1)
    else if within 0xe0 0xef a && ltb 1 (length bs) && second_of_three a b && tail c
    then ((a - 0xe0) * 0x1000 + (b - 0x80) * 0x40 + (c - 0x80), 2)
    else if within 0xf0 0xf4 a && ltb 2 (length bs) && second_of_four a b && tail c && tail d
    then ((a - 0xf0) * 0x4_0000 + (b - 0x80) * 0x1000 + (c - 0x80) * 0x40 + (d - 0x80), 3)
    else (0xfffd, 0)

unfoldable pub runes_from : ℕ → List ℕ → List ℕ
runes_from skip [] = []
runes_from (suc skip) (a ∷ bs) = runes_from skip bs
runes_from zero (a ∷ bs) = let (r, more) = first_rune a bs in r ∷ runes_from more bs

unfoldable pub runes : List ℕ → List ℕ
runes s = runes_from 0 s
