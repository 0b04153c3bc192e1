-- ===== src/World/Chunk/Section.antt =====
-- A chunk section, as a client reads it: the count of blocks that are not air, a field that is
-- zero, and the containers of blocks and of biomes.
use gomc.Prelude.{ℕ, zero, suc, ◌+◌, ◌-◌, ◌*◌, ◌/◌, ◌%◌, ◌^◌, ◌<◌, ◌≡◌, refl, ap, ◌∙◌, arith}
use gomc.Prelude.{List, [], ◌∷◌, length, All, set, replicate, append_assoc, length-set}
use gomc.Prelude.{length-replicate, inl, inr, Bool-cases, ◌==◌, ltb, ◌&&◌, not}
use gomc.Codec.Reader
use gomc.Codec.Reader.{Read, ◌>>=◌, pure}
use gomc.Codec.Reads.{Reads, bind-Reads, map-Reads, of_eq-Reads}
use gomc.Codec.Numbers.{fixed-Reads}
use mathlib.Core.Path.{subst}
use gomc.World.Palette.{write_paletted_container, block_palette, biome_palette}
use gomc.World.Palette.Container.{read_container, write_paletted_container-Reads}
use gomc.World.Chunk.{write_section, section_cells, apply_overrides, superflat_blocks, tabulate}
use gomc.World.Chunk.{layer_block, count_non_air, section_blocks, section_biomes, plains_biome, air}
use gomc.World.Chunk.{column_cells}

-- The count and the blocks.
unfoldable pub read_section : Read (ℕ × List ℕ)
read_section = do
  count ← Reader.short
  fluids ← Reader.short
  blocks ← read_container section_blocks block_palette
  biomes ← read_container section_biomes biome_palette
  pure (count, blocks)

-- Each override sets a block state that fits the direct width.
abbrev pub IsColumn : List (ℕ × ℕ) → Type 0
IsColumn = All λ o. o.1 < 2 ^ 15

abbrev IsState : ℕ → Type 0
IsState v = v < 2 ^ 15

pub All-replicate {ℓ} : {A : Type ℓ} (P : A → Type 0) (n : ℕ) (a : A) → P a → All P (replicate n a)
All-replicate P zero a h = tt
All-replicate P (suc n) a h = (h, All-replicate P n a h)

All-set {ℓ} :
    {A : Type ℓ} (P : A → Type 0) (xs : List A) (i : ℕ) (v : A)
    → P v
    → All P xs
    → All P (set xs i v)
All-set P [] i v hv h = tt
All-set P (x ∷ xs) zero v hv (hx, h) = (hv, h)
All-set P (x ∷ xs) (suc i) v hv (hx, h) = (hx, All-set P xs i v hv h)

All-weaken : (P Q : ℕ → Type 0) (xs : List ℕ) → ((x : ℕ) → P x → Q x) → All P xs → All Q xs
All-weaken P Q [] f h = tt
All-weaken P Q (x ∷ xs) f (hx, h) = (f x hx, All-weaken P Q xs f h)

layer_block-IsState : (y : ℕ) → IsState (layer_block y)
unfolding layer_block
layer_block-IsState y = ground arith

-- A list of one value for each index.
module _ (f : ℕ → ℕ) where
  length-tabulate : (i n : ℕ) → length (tabulate (λ j. f j ∷ []) i n) ≡ n
  unfolding tabulate
  length-tabulate i zero = refl
  length-tabulate i (suc n) = ap (λ (k : ℕ). suc k) (length-tabulate (i + 1) n)

  All-tabulate :
      (P : ℕ → Type 0) (i n : ℕ) → ((j : ℕ) → P (f j)) → All P (tabulate (λ j. f j ∷ []) i n)
  unfolding tabulate
  All-tabulate P i zero h = tt
  All-tabulate P i (suc n) h = (h i, All-tabulate P (i + 1) n h)

pub superflat_blocks_lem :
    (s : ℕ) → (length (superflat_blocks s) ≡ section_blocks) × All IsState (superflat_blocks s)
unfolding superflat_blocks
superflat_blocks_lem s = elim (Bool-cases (s == 0)) [
  | inl e ↦
      rw (superflat_blocks, e)
        (
          length-tabulate (λ i. layer_block (i / column_cells)) 0 section_blocks,
          All-tabulate (λ i. layer_block (i / column_cells)) IsState 0 section_blocks
              (λ j. layer_block-IsState (j / column_cells)),
        )
  | inr e ↦
      rw (superflat_blocks, e)
        (
          length-replicate section_blocks air,
          All-replicate IsState section_blocks air (omega arith),
        )
]

apply_overrides_lem :
    (base : ℕ) (overrides : List (ℕ × ℕ)) (blocks : List ℕ)
    → IsColumn overrides
    → All IsState blocks
    → (length (apply_overrides base overrides blocks) ≡ length blocks)
      × All IsState (apply_overrides base overrides blocks)
unfolding apply_overrides
apply_overrides_lem base [] blocks h hb = (refl, hb)
apply_overrides_lem base ((idx, state) ∷ rest) blocks (hs, h) hb =
    elim (Bool-cases (not (ltb idx base) && ltb idx (base + section_blocks))) [
      | inl e ↦
          let (same, states) =
            apply_overrides_lem base rest (set blocks (idx - base) state) h
              (All-set IsState blocks (idx - base) state hs hb) in
          rw (apply_overrides, e) (same ∙ length-set blocks (idx - base) state, states)
      | inr e ↦ rw (apply_overrides, e) (apply_overrides_lem base rest blocks h hb)
    ]

section_cells_lem :
    (s : ℕ) (overrides : List (ℕ × ℕ))
    → IsColumn overrides
    → (length (section_cells s overrides) ≡ section_blocks)
      × All IsState (section_cells s overrides)
unfolding section_cells
section_cells_lem s overrides h =
    let (size, states) = superflat_blocks_lem s in
    let (same, states') =
      apply_overrides_lem (s * section_blocks) overrides (superflat_blocks s) h states in
    (same ∙ size, states')

blocks-Reads :
    (cells : List ℕ)
    → length cells ≡ section_blocks
    → All IsState cells
    → Reads
        (read_container section_blocks block_palette)
        (write_paletted_container cells block_palette)
        cells
blocks-Reads cells size states =
    subst
      (λ (n : ℕ).
        Reads (read_container n block_palette) (write_paletted_container cells block_palette) cells)
      size
      (write_paletted_container-Reads cells block_palette
        (omega arith, omega arith, omega arith, omega arith) (omega (arith, size))
        (All-weaken IsState (λ v. v < 2 ^ 32) cells (λ v hv. omega arith) states) states)

biomes-Reads :
    Reads
      (read_container section_biomes biome_palette)
      (write_paletted_container (replicate section_biomes plains_biome) biome_palette)
      (replicate section_biomes plains_biome)
biomes-Reads =
    write_paletted_container-Reads (replicate section_biomes plains_biome) biome_palette
      (omega arith, omega arith, omega arith, omega arith) (omega arith)
      (All-replicate (λ v. v < 2 ^ 32) section_biomes plains_biome (omega arith))
      (All-replicate (λ v. v < 2 ^ 7) section_biomes plains_biome (omega arith))

-- A client reads a section back: the number of blocks that are not air, as an int16, and the block
-- of each cell, where every override is a block state below 2^15.
pub write_section-Reads :
    (s : ℕ) (overrides : List (ℕ × ℕ))
    → IsColumn overrides
    → Reads read_section
        (write_section s overrides)
        (count_non_air (section_cells s overrides) % 2 ^ 16, section_cells s overrides)
unfolding read_section write_section
write_section-Reads s overrides h =
    let (size, states) = section_cells_lem s overrides h in
    let count = count_non_air (section_cells s overrides) % 2 ^ 16 in
    of_eq-Reads (simp append_assoc) (
      bind-Reads _ (fixed-Reads 2 count (omega arith)) (
        bind-Reads _ (fixed-Reads 2 0 (omega arith)) (
          bind-Reads _ (blocks-Reads (section_cells s overrides) size states)
            (map-Reads (λ _. (count, section_cells s overrides)) biomes-Reads))))
