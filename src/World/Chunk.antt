-- ===== src/World/Chunk.antt =====
-- internal/game/world/chunk.go and block.go: a column's ChunkData body. The overrides of a column
-- are an association list without repeated keys.
pub mod Section
pub mod Payload
use gomc.Prelude.{ℕ, zero, suc, ◌+◌, ◌-◌, ◌*◌, ◌/◌, ◌%◌, ◌^◌, ltb, ◌==◌, ◌&&◌, not}
use gomc.Prelude.{List, [], ◌∷◌, ◌++◌, length, set, replicate, if◌then◌else◌}
use mathlib.Core.List.{flat_map}
use gomc.Codec.Writer.{var_int, short, len32, raw, bit_set, byte_array}
use gomc.World.Palette.{write_longs, write_paletted_container, block_palette, biome_palette}

abbrev pub air : ℕ
air = 0

abbrev pub grass_block : ℕ
grass_block = 9

abbrev pub dirt : ℕ
dirt = 10

abbrev pub bedrock : ℕ
bedrock = 85

abbrev pub plains_biome : ℕ
plains_biome = 40

abbrev pub section_count : ℕ
section_count = 24

abbrev pub section_blocks : ℕ
section_blocks = 4096

abbrev pub section_biomes : ℕ
section_biomes = 64

abbrev pub column_cells : ℕ
column_cells = 256

abbrev pub surface_height : ℕ
surface_height = 4

abbrev pub heightmap_bits : ℕ
heightmap_bits = 9

-- `f` of `i`, `i + 1`, ..., `n` of them.
unfoldable pub tabulate : (ℕ → List ℕ) → ℕ → ℕ → List ℕ
tabulate f i zero = []
tabulate f i (suc n) = f i ++ tabulate f (i + 1) n

-- The `switch` on the relative y of a cell.
unfoldable pub layer_block : ℕ → ℕ
layer_block y =
    if y == 0 then bedrock else if ltb y 3 then dirt else if y == 3 then grass_block else air

unfoldable pub superflat_blocks : ℕ → List ℕ
superflat_blocks section_idx =
    if section_idx == 0
    then tabulate (λ i. layer_block (i / column_cells) ∷ []) 0 section_blocks
    else replicate section_blocks air

-- `for idx, state := range overrides`
unfoldable pub apply_overrides : ℕ → List (ℕ × ℕ) → List ℕ → List ℕ
apply_overrides base [] blocks = blocks
apply_overrides base ((idx, state) ∷ rest) blocks = apply_overrides base rest (
    if not (ltb idx base) && ltb idx (base + section_blocks)
    then set blocks (idx - base) state
    else blocks)

unfoldable pub count_non_air : List ℕ → ℕ
count_non_air [] = 0
count_non_air (b ∷ bs) = (if b == air then 0 else 1) + count_non_air bs

unfoldable pub section_cells : ℕ → List (ℕ × ℕ) → List ℕ
section_cells section_idx overrides =
    apply_overrides (section_idx * section_blocks) overrides (superflat_blocks section_idx)

unfoldable pub write_section : ℕ → List (ℕ × ℕ) → List ℕ
write_section section_idx overrides =
    let blocks = section_cells section_idx overrides in
    short (count_non_air blocks % 2 ^ 16)
    ++ short 0
    ++ write_paletted_container blocks block_palette
    ++ write_paletted_container (replicate section_biomes plains_biome) biome_palette

abbrev pub full_bright_light : List ℕ
full_bright_light = replicate 2048 0xff

-- One heightmap: its kind, and the length-prefixed longs.
unfoldable pub write_heightmap : ℕ → List ℕ
write_heightmap kind =
    let longs = write_longs (replicate column_cells surface_height) heightmap_bits (λ v. v) in
    var_int kind ++ var_int (length longs / 8) ++ raw longs

unfoldable pub build_payload : List (ℕ × ℕ) → List ℕ
build_payload overrides =
    let sections = tabulate (λ s. write_section s overrides) 0 section_count in
    var_int 3
    ++ flat_map write_heightmap (1 ∷ 5 ∷ 4 ∷ [])
    ++ var_int (len32 sections)
    ++ raw sections
    ++ var_int 0
    ++ bit_set (0b110 ∷ [])
    ++ bit_set []
    ++ bit_set (0b001 ∷ [])
    ++ bit_set (0b111 ∷ [])
    ++ var_int 2
    ++ byte_array full_bright_light
    ++ byte_array full_bright_light
    ++ var_int 0

unfoldable pub superflat_payload : List ℕ
superflat_payload = build_payload []
