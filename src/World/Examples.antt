-- ===== src/World/Examples.antt =====
-- Concrete runs of package world, after world_test.go, and the theorems at concrete inputs.
use gomc.Prelude.{ℕ, ◌-◌, ◌^◌, ◌<◌, ◌≤◌, ◌≡◌, refl, arith, [], ◌∷◌, some, true, All}
use gomc.World.Palette.{bits_for, bits_loop, scan_values, empty_palette}
use gomc.World.Palette.Index.{bits_for_least, Found, scan_values-Found}
use gomc.Codec.Reads.{Reads}
use gomc.World.Palette.{write_paletted_container, block_palette}
use gomc.World.Palette.Container.{read_container, write_paletted_container-Reads}
use gomc.World.Chunk.{layer_block}
use gomc.World.Blocks.{new_world, set_block, chunk_payload, chunk_coord, relative_y}
use gomc.World.Blocks.Cells.{or_default}
use gomc.World.Blocks.Shown.{shown, chunk_payload-shown, set_block-shown}
use gomc.World.Blocks.Stored.{block_at, set_block-block_at}
use gomc.World.Blocks.Stored.{set_block-block_at_other}

-- A four-block floor takes two bits, before the minimum of four.
bits_for_floor : bits_for 4 ≡ 2
unfolding bits_for bits_loop
bits_for_floor = refl

bits_for_least_example : (5 ≤ 2 ^ bits_for 5) × ((k : ℕ) → k < bits_for 5 → 2 ^ k < 5)
bits_for_least_example = bits_for_least 5

scan_values-Found_example :
    All (Found (scan_values empty_palette (85 ∷ 10 ∷ 10 ∷ []))) (85 ∷ 10 ∷ 10 ∷ [])
scan_values-Found_example = scan_values-Found (85 ∷ 10 ∷ 10 ∷ [])

-- (-1, -64, 17)
set_block-block_at_example :
    ((set_block (2 ^ 32 - 1) (2 ^ 32 - 64) 17 1 new_world).1 ≡ true)
    × (block_at
          (set_block (2 ^ 32 - 1) (2 ^ 32 - 64) 17 1 new_world).0
          (2 ^ 32 - 1)
          (2 ^ 32 - 64)
          17
        ≡ some 1)
set_block-block_at_example =
    set_block-block_at (2 ^ 32 - 1) (2 ^ 32 - 64) 17 1 new_world (omega arith)

set_block-block_at_other_example :
    block_at (set_block 0 0 0 1 new_world).0 16 0 0 ≡ block_at new_world 16 0 0
set_block-block_at_other_example =
    set_block-block_at_other 0 0 0 1 new_world 16 0 0 (omega arith, omega arith, omega arith)
      (omega arith, omega arith, omega arith) λ (h, _, _). absurd (omega arith)

-- A floor of four blocks, in four cells.
write_paletted_container-Reads_example :
    Reads
      (read_container 4 block_palette)
      (write_paletted_container (85 ∷ 10 ∷ 10 ∷ 9 ∷ []) block_palette)
      (85 ∷ 10 ∷ 10 ∷ 9 ∷ [])
write_paletted_container-Reads_example =
    write_paletted_container-Reads (85 ∷ 10 ∷ 10 ∷ 9 ∷ []) block_palette
      (omega arith, omega arith, omega arith, omega arith) (omega arith)
      (omega arith, (omega arith, (omega arith, (omega arith, tt))))
      (omega arith, (omega arith, (omega arith, (omega arith, tt))))

-- The grass of the flat floor.
chunk_payload-shown_example :
    shown 5 (2 ^ 32 - 61) 7 (chunk_payload (chunk_coord 5) (chunk_coord 7) new_world)
    ≡ or_default
        (block_at new_world 5 (2 ^ 32 - 61) 7)
        (some (layer_block (relative_y (2 ^ 32 - 61))))
unfolding new_world
chunk_payload-shown_example = chunk_payload-shown 5 (2 ^ 32 - 61) 7 new_world tt (omega arith)

-- A stone placed on it.
set_block-shown_example :
    shown 5
      (2 ^ 32 - 60)
      7
      (chunk_payload (chunk_coord 5) (chunk_coord 7) (set_block 5 (2 ^ 32 - 60) 7 1 new_world).0)
    ≡ some 1
unfolding new_world
set_block-shown_example =
    set_block-shown 5 (2 ^ 32 - 60) 7 1 new_world tt (omega arith) (omega arith)
