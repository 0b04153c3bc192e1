-- ===== src/World/Blocks/Shown.antt =====
-- What a client finds at a position in the body of a column's ChunkData.
use gomc.Prelude.{ℕ, ◌+◌, ◌*◌, ◌/◌, ◌%◌, ◌^◌, ◌<◌, ◌≡◌, refl, sym, ap, ◌∙◌, arith}
use gomc.Prelude.{List, [], ◌∷◌, All, get_elem?, inl, inr, Bool-cases, Option-cases}
use gomc.Prelude.{some, none, Option, ◌==◌, lt→ltb, ==_iff, Bool}
use gomc.Prelude.Bits.{bit_and_mask}
use gomc.Codec.Reader.{new_reader}
use gomc.World.Chunk.{section_blocks, section_count, layer_block, column_cells}
use gomc.World.Chunk.{build_payload, superflat_payload}
use gomc.World.Chunk.Section.{IsColumn}
use gomc.World.Chunk.Payload.{read_column, read_column-build_payload}
use gomc.World.Blocks.{World, find, put, same_chunk, chunk_coord, block_index, relative_y, column}
use gomc.World.Blocks.{set_block, chunk_payload}
use mathlib.Core.Option.{none-ne-some, some-injective}
use mathlib.Core.Path.{subst}
use gomc.World.Blocks.Stored.{find-put_other, block_at_inside, block_at, set_block-block_at}
use gomc.World.Blocks.Cells.{IsMap, or_default, override_or, section_cells-at, sections_from-at}

-- The block of a cell of a section.
abbrev pub cell_of : ℕ → Option (ℕ × List ℕ) → Option ℕ
cell_of i none = none
cell_of i (some (count, cells)) = get_elem? cells i

-- The block that a client draws at a position of the column.
abbrev pub shown : ℕ → ℕ → ℕ → List ℕ → Option ℕ
shown x y z payload =
    cell_of (relative_y y % 16 * 256 + z % 16 * 16 + x % 16)
      (get_elem? (read_column (new_reader payload)).0 (relative_y y / 16))

chunk_payload_eq :
    (cx cz : ℕ) (w : World) → chunk_payload cx cz w ≡ build_payload (column w (cx, cz))
unfolding chunk_payload superflat_payload
chunk_payload_eq cx cz w = from (column w (cx, cz))
  where
    from :
        (col : List (ℕ × ℕ))
        → elim col [ [] ↦ superflat_payload | cell ∷ cells ↦ build_payload (cell ∷ cells) ]
          ≡ build_payload col
    from [] = refl
    from (cell ∷ cells) = refl

block_index_lem :
    (x y z : ℕ)
    → relative_y y < 384
    → block_index x y z ≡ some (relative_y y * 256 + z % 16 * 16 + x % 16)
unfolding block_index
block_index_lem x y z h = rw (lt→ltb (relative_y y) 384 h, bit_and_mask 4 x, bit_and_mask 4 z)

-- Every column of the overrides has block states below 2^15, and no cell twice.
abbrev pub IsWorld : World → Type 0
IsWorld w = All (λ c. IsColumn c.1 × IsMap c.1) w.overrides

module _ {K V : Type 0} (same : K → K → Bool) (P : V → Type 0) where
  find-All : (k : K) (m : List (K × V)) (v : V) → All (λ c. P c.1) m → find same k m ≡ some v → P v
  unfolding find
  find-All k [] v h e = absurd (none-ne-some _ e)
  find-All k ((k', u) ∷ m) v (hu, h) e = elim (Bool-cases (same k k')) [
    | inl s ↦ subst P (some-injective _ _ (rw s at e)) hu
    | inr s ↦ find-All k m v h (rw s at e)
  ]

  put-All :
      (k : K) (v : V) (m : List (K × V))
      → P v
      → All (λ c. P c.1) m
      → All (λ c. P c.1) (put same k v m)
  unfolding put
  put-All k v [] hv h = (hv, tt)
  put-All k v ((k', u) ∷ m) hv (hu, h) = elim (Bool-cases (same k k')) [
    | inl s ↦ rw s (hv, h)
    | inr s ↦ rw s (hu, put-All k v m hv h)
  ]

column-IsWorld :
    (key : ℕ × ℕ) (w : World) → IsWorld w → IsColumn (column w key) × IsMap (column w key)
column-IsWorld key w h = elim (Option-cases (find same_chunk key w.overrides)) [
  | inl e ↦ rw (column, e) (tt, tt)
  | inr (col, e) ↦
      rw (column, e) (find-All same_chunk (λ c. IsColumn c × IsMap c) key w.overrides col h e)
]

put-IsMap : (idx state : ℕ) (col : List (ℕ × ℕ)) → IsMap col → IsMap (put ◌==◌ idx state col)
unfolding put find
put-IsMap idx state [] h = (refl, tt)
put-IsMap idx state ((i, u) ∷ col) (new, h) = elim (Bool-cases (idx == i)) [
  | inl e ↦ rw e (ap (λ (k : ℕ). find ◌==◌ k col) ((==_iff idx i).0 e) ∙ new, h)
  | inr e ↦ rw e (
    find-put_other ◌==◌ (λ a b. (==_iff a b).0) i idx state col (ground arith) ∙ new,
    put-IsMap idx state col h,
  )
]

-- A world whose block states are in range keeps them so.
pub set_block-IsWorld :
    (x y z state : ℕ) (w : World) → state < 2 ^ 15 → IsWorld w → IsWorld (set_block x y z state w).0
unfolding set_block
set_block-IsWorld x y z state w small h = elim (Option-cases (block_index x y z)) [
  | inl e ↦ rw (set_block, e) h
  | inr (idx, e) ↦
      let key : ℕ × ℕ = (chunk_coord x, chunk_coord z) in
      let (states, once) = column-IsWorld key w h in
      rw (set_block, e)
        (put-All same_chunk (λ c. IsColumn c × IsMap c) key _ w.overrides
          (
            put-All ◌==◌ (λ v. v < 2 ^ 15) idx state (column w key) small states,
            put-IsMap idx state (column w key) once,
          )
          h)
]

-- A client that reads the body of a column finds at each of its positions within the build range
-- the override there, and where there is none the flat floor: bedrock, dirt twice, grass, and air
-- above; the world's overrides are block states below 2^15, no cell has two of them.
pub chunk_payload-shown :
    (x y z : ℕ) (w : World)
    → IsWorld w
    → relative_y y < 384
    → shown x y z (chunk_payload (chunk_coord x) (chunk_coord z) w)
      ≡ or_default (block_at w x y z) (some (layer_block (relative_y y)))
chunk_payload-shown x y z w h range =
    let col = column w (chunk_coord x, chunk_coord z) in
    let (states, once) = column-IsWorld (chunk_coord x, chunk_coord z) w h in
    let s = relative_y y / 16 in
    let i = relative_y y % 16 * 256 + z % 16 * 16 + x % 16 in
    let idx = relative_y y * 256 + z % 16 * 16 + x % 16 in
    let cell : (0 + s) * section_blocks + i ≡ idx = omega arith in
    let layer : idx / column_cells ≡ relative_y y = omega arith in
    ap (shown x y z) (chunk_payload_eq (chunk_coord x) (chunk_coord z) w)
    ∙ (ap (λ ss. cell_of i (get_elem? ss s)) (read_column-build_payload col states)
        ∙ (ap (cell_of i) (sections_from-at col 0 section_count s (omega arith))
            ∙ (section_cells-at (0 + s) i col (omega arith) once
                ∙ (ap (λ (k : ℕ). override_or k col (some (layer_block (k / column_cells)))) cell
                    ∙ (ap (λ (k : ℕ). override_or idx col (some (layer_block k))) layer
                        ∙ sym (
                            ap (λ o. or_default o (some (layer_block (relative_y y))))
                              (block_at_inside w x y z idx (block_index_lem x y z range))))))))

-- A block that is set within the build range is the one that a client finds there in the column
-- that it is sent afterwards.
pub set_block-shown :
    (x y z state : ℕ) (w : World)
    → IsWorld w
    → state < 2 ^ 15
    → relative_y y < 384
    → shown x y z (chunk_payload (chunk_coord x) (chunk_coord z) (set_block x y z state w).0)
      ≡ some state
set_block-shown x y z state w h small range =
    chunk_payload-shown x y z (set_block x y z state w).0 (set_block-IsWorld x y z state w small h)
      range
    ∙ ap (λ o. or_default o (some (layer_block (relative_y y))))
        ((set_block-block_at x y z state w range).1)
