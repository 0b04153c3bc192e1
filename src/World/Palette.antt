-- ===== src/World/Palette.antt =====
-- internal/game/world/palette.go: the paletted container and its packed longs. The map `index` is a
-- function, a missing key is `none`.
pub mod Index
pub mod Fill
pub mod Packed
pub mod Container
use gomc.Prelude.{ℕ, zero, suc, ◌+◌, ◌-◌, ◌*◌, ◌/◌, ◌%◌, ◌^◌, bit_and, bit_or, ltb, ◌==◌}
use gomc.Prelude.{List, [], ◌∷◌, ◌++◌, length, Option, none, some, true, false, if◌then◌else◌}
use mathlib.Core.List.{flat_map}
use gomc.Codec.Writer.{u_byte, var_int, long, len32}

pub record PaletteKind : Type 0 where
  pub min_bits : ℕ
  pub max_bits : ℕ
  pub direct_bits : ℕ

abbrev pub block_palette : PaletteKind
block_palette = record { min_bits = 4; max_bits = 8; direct_bits = 15 }

abbrev pub biome_palette : PaletteKind
biome_palette = record { min_bits = 1; max_bits = 3; direct_bits = 7 }

-- `for (1 << bits) < n { bits++ }`; the fuel is `n`, which `bits` never passes.
unfoldable pub bits_loop : ℕ → ℕ → ℕ → ℕ
bits_loop zero n bits = bits
bits_loop (suc fuel) n bits =
    let more = bits_loop fuel n (bits + 1) in if ltb (2 ^ bits) n then more else bits

unfoldable pub bits_for : ℕ → ℕ
bits_for n = bits_loop n n 0

-- The loop of `writeLongs`: `cur` holds `n` entries.
unfoldable pub pack_longs : (ℕ → ℕ) → ℕ → ℕ → List ℕ → ℕ → ℕ → List ℕ
pack_longs map2idx bits per [] cur n = if ltb 0 n then long cur else []
pack_longs map2idx bits per (v ∷ vs) cur n =
    let cur' = bit_or cur (bit_and (map2idx v) (2 ^ bits - 1) * 2 ^ (n * bits) % 2 ^ 64) in
    elim (n + 1 == per) [
      | true ↦ long cur' ++ pack_longs map2idx bits per vs 0 0
      | false ↦ pack_longs map2idx bits per vs cur' (n + 1)
    ]

unfoldable pub write_longs : List ℕ → ℕ → (ℕ → ℕ) → List ℕ
write_longs values bits map2idx = pack_longs map2idx bits (64 / bits) values 0 0

pub record Palette : Type 0 where
  pub palette : List ℕ
  pub index : ℕ → Option ℕ

-- One round of the first loop.
unfoldable pub add_value : Palette → ℕ → Palette
add_value p v = elim (p.index v) [
  | some i ↦ p
  | none ↦ record {
    palette = p.palette ++ (v ∷ []);
    index = λ u. if u == v then some (length p.palette) else p.index u;
  }
]

unfoldable pub scan_values : Palette → List ℕ → Palette
scan_values p [] = p
scan_values p (v ∷ vs) = scan_values (add_value p v) vs

abbrev pub empty_palette : Palette
empty_palette = record { palette = []; index = λ u. none }

-- `uint32(index[v])`, zero for a missing key.
abbrev pub index_of : Palette → ℕ → ℕ
index_of p v = elim (p.index v) [ none ↦ 0 | some i ↦ i ]

-- The container, once the palette is known.
unfoldable pub write_container : Palette → List ℕ → PaletteKind → List ℕ
write_container p values kind =
    let bits = bits_for (length p.palette) in
    let width = if ltb bits kind.min_bits then kind.min_bits else bits in
    if length p.palette == 1
    then u_byte 0 ++ flat_map var_int p.palette
    else if ltb kind.max_bits bits
    then u_byte kind.direct_bits ++ write_longs values kind.direct_bits (λ v. v)
    else u_byte width
      ++ var_int (len32 p.palette)
      ++ flat_map var_int p.palette
      ++ write_longs values width (index_of p)

unfoldable pub write_paletted_container : List ℕ → PaletteKind → List ℕ
write_paletted_container values kind =
    write_container (scan_values empty_palette values) values kind
