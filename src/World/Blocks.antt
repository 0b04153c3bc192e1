-- ===== src/World/Blocks.antt =====
-- internal/game/world/world.go: the overrides. A coordinate is an int32 word; a map is an
-- association list without repeated keys. The lock is left out: one caller writes at a time.
pub mod Stored
pub mod Cells
pub mod Shown
use gomc.Prelude.{ℕ, ◌+◌, ◌-◌, ◌*◌, ◌/◌, ◌%◌, ◌^◌, bit_and, ltb, ◌==◌, ◌&&◌, Bool, true, false}
use gomc.Prelude.{List, [], ◌∷◌, Option, none, some, if◌then◌else◌}
use gomc.World.Chunk.{section_count, build_payload, superflat_payload}

module _ {K V : Type 0} (same : K → K → Bool) where
  unfoldable pub find : K → List (K × V) → Option V
  find k [] = none
  find k ((k', v) ∷ m) = let rest = find k m in if same k k' then some v else rest

  unfoldable pub put : K → V → List (K × V) → List (K × V)
  put k v [] = (k, v) ∷ []
  put k v ((k', v') ∷ m) = let rest = put k v m in if same k k' then (k, v) ∷ m else (k', v') ∷ rest

abbrev pub same_chunk : ℕ × ℕ → ℕ × ℕ → Bool
same_chunk a b = a.0 == b.0 && (a.1 == b.1)

pub record World : Type 0 where
  pub overrides : List ((ℕ × ℕ) × List (ℕ × ℕ))

unfoldable pub new_world : World
new_world = record { overrides = [] }

-- `c >> 4` of an int32.
unfoldable pub chunk_coord : ℕ → ℕ
chunk_coord c = if ltb c (2 ^ 31) then c / 16 else c / 16 + (2 ^ 32 - 2 ^ 28)

-- `y - minBuildY`, as a word: from 0 to 383 exactly for the y within the build range.
abbrev pub relative_y : ℕ → ℕ
relative_y y = (y + 64) % 2 ^ 32

-- `none` is -1.
unfoldable pub block_index : ℕ → ℕ → ℕ → Option ℕ
block_index x y z =
    if ltb (relative_y y) (section_count * 16)
    then some (relative_y y * 256 + bit_and z 15 * 16 + bit_and x 15)
    else none

-- `col`, empty if the map has none.
abbrev pub column : World → ℕ × ℕ → List (ℕ × ℕ)
column w key = elim (find same_chunk key w.overrides) [ none ↦ [] | some col ↦ col ]

unfoldable pub set_block : ℕ → ℕ → ℕ → ℕ → World → World × Bool
set_block x y z state w = elim (block_index x y z) [
  | none ↦ (w, false)
  | some idx ↦
      let key : ℕ × ℕ = (chunk_coord x, chunk_coord z) in
      let col = put ◌==◌ idx state (column w key) in
      (record { overrides = put same_chunk key col w.overrides }, true)
]

unfoldable pub chunk_payload : ℕ → ℕ → World → List ℕ
chunk_payload cx cz w = elim (column w (cx, cz)) [
  | [] ↦ superflat_payload
  | cell ∷ cells ↦ build_payload (cell ∷ cells)
]
