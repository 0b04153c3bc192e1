-- ===== src/World/Blocks/Cells.antt =====
-- The block of each cell of a section: its override, or that of the flat floor.
use gomc.Prelude.{ℕ, zero, suc, ◌+◌, ◌-◌, ◌*◌, ◌/◌, ◌<◌, ◌≤◌, ◌≡◌, refl, sym, ap, ◌∙◌, arith}
use gomc.Prelude.{List, [], ◌∷◌, length, set, replicate, length-set, get_elem?}
use gomc.Prelude.{inl, inr, Bool-cases, true, false, ◌==◌, ==_iff, ltb, ◌&&◌, not}
use gomc.Prelude.{some, none, Option}
use gomc.World.Chunk.{section_cells, apply_overrides, superflat_blocks, tabulate, layer_block}
use gomc.World.Chunk.{section_blocks, column_cells, air}
use gomc.World.Chunk.Section.{superflat_blocks_lem}
use gomc.World.Chunk.Payload.{sections_from, section_of}
use gomc.World.Blocks.{find}

-- No cell has two overrides.
abbrev pub IsMap : List (ℕ × ℕ) → Type 0
IsMap [] = Unit {0}
IsMap ((idx, state) ∷ rest) = (find ◌==◌ idx rest ≡ none) × IsMap rest

abbrev pub or_default : Option ℕ → Option ℕ → Option ℕ
or_default none block = block
or_default (some v) block = some v

-- A cell's override, or another block.
abbrev pub override_or : ℕ → List (ℕ × ℕ) → Option ℕ → Option ℕ
override_or idx overrides block = or_default (find ◌==◌ idx overrides) block

get_elem?-set_self : (xs : List ℕ) (i v : ℕ) → i < length xs → get_elem? (set xs i v) i ≡ some v
get_elem?-set_self [] i v h = absurd (omega arith)
get_elem?-set_self (x ∷ xs) zero v h = refl
get_elem?-set_self (x ∷ xs) (suc i) v h = get_elem?-set_self xs i v (omega arith)

get_elem?-set_other :
    (xs : List ℕ) (i j v : ℕ) → (i == j) ≡ false → get_elem? (set xs j v) i ≡ get_elem? xs i
get_elem?-set_other [] i j v h = refl
get_elem?-set_other (x ∷ xs) zero zero v h = absurd (ground arith)
get_elem?-set_other (x ∷ xs) zero (suc j) v h = refl
get_elem?-set_other (x ∷ xs) (suc i) zero v h = refl
get_elem?-set_other (x ∷ xs) (suc i) (suc j) v h = get_elem?-set_other xs i j v (ground arith)

get_elem?-tabulate :
    (f : ℕ → ℕ) (i n k : ℕ) → k < n → get_elem? (tabulate (λ j. f j ∷ []) i n) k ≡ some (f (i + k))
unfolding tabulate
get_elem?-tabulate f i zero k h = absurd (omega arith)
get_elem?-tabulate f i (suc n) zero h = ap (λ (j : ℕ). some (f j)) (omega arith)
get_elem?-tabulate f i (suc n) (suc k) h =
    get_elem?-tabulate f (i + 1) n k (omega arith) ∙ ap (λ (j : ℕ). some (f j)) (omega arith)

get_elem?-replicate : (n a k : ℕ) → k < n → get_elem? (replicate n a) k ≡ some a
get_elem?-replicate zero a k h = absurd (omega arith)
get_elem?-replicate (suc n) a zero h = refl
get_elem?-replicate (suc n) a (suc k) h = get_elem?-replicate n a k (omega arith)

layer_block_high : (y : ℕ) → 4 ≤ y → layer_block y ≡ air
unfolding layer_block
layer_block_high y h = ground arith

-- The layer of a cell decides its block, in every section.
superflat_blocks-at :
    (s i : ℕ)
    → i < section_blocks
    → get_elem? (superflat_blocks s) i
      ≡ some (layer_block ((s * section_blocks + i) / column_cells))
unfolding superflat_blocks
superflat_blocks-at s i h = elim (Bool-cases (s == 0)) [
  | inl e ↦
      let lowest = (==_iff s 0).0 e in
      rw (superflat_blocks, e)
        (get_elem?-tabulate (λ j. layer_block (j / column_cells)) 0 section_blocks i h
          ∙ ap (λ (j : ℕ). some (layer_block (j / column_cells))) (omega arith))
  | inr e ↦
      rw (superflat_blocks, e)
        (get_elem?-replicate section_blocks air i h
          ∙ ap (λ (b : ℕ). some b) (sym (layer_block_high _ (ground arith))))
]

-- An override in front of the others, for its own cell and for another.
override_or_same :
    (key idx state : ℕ) (rest : List (ℕ × ℕ)) (block : Option ℕ)
    → (key == idx) ≡ true
    → override_or key ((idx, state) ∷ rest) block ≡ some state
unfolding find
override_or_same key idx state rest block e =
    ap (λ o. or_default o block) {y = some state} (rw (find, e))

override_or_other :
    (key idx state : ℕ) (rest : List (ℕ × ℕ)) (block : Option ℕ)
    → (key == idx) ≡ false
    → override_or key ((idx, state) ∷ rest) block ≡ override_or key rest block
unfolding find
override_or_other key idx state rest block e =
    ap (λ o. or_default o block) {y = find ◌==◌ key rest} (rw (find, e))

override_or-none :
    (key : ℕ) (rest : List (ℕ × ℕ)) (block : Option ℕ)
    → find ◌==◌ key rest ≡ none
    → override_or key rest block ≡ block
override_or-none key rest block e = ap (λ o. or_default o block) e

apply_overrides-at :
    (base i : ℕ) (overrides : List (ℕ × ℕ)) (blocks : List ℕ)
    → i < section_blocks
    → length blocks ≡ section_blocks
    → IsMap overrides
    → get_elem? (apply_overrides base overrides blocks) i
      ≡ override_or (base + i) overrides (get_elem? blocks i)
unfolding apply_overrides find
apply_overrides-at base i [] blocks h size m = refl
apply_overrides-at base i ((idx, state) ∷ rest) blocks h size (new, m) =
    let blocks' = set blocks (idx - base) state in
    let size' = length-set blocks (idx - base) state ∙ size in
    elim (Bool-cases (not (ltb idx base) && ltb idx (base + section_blocks))) [
      | inl e ↦
          rw (apply_overrides, e)
            (apply_overrides-at base i rest blocks' h size' m
              ∙ elim (Bool-cases (base + i == idx)) [
                | inl same ↦
                    let key = (==_iff (base + i) idx).0 same in
                    let place : idx - base ≡ i = omega arith in
                    let absent = ap (λ (k : ℕ). find ◌==◌ k rest) key ∙ new in
                    override_or-none (base + i) rest (get_elem? blocks' i) absent
                    ∙ (ap (λ (k : ℕ). get_elem? (set blocks k state) i) place
                        ∙ (get_elem?-set_self blocks i state (omega arith)
                            ∙ sym (
                                override_or_same (base + i) idx state rest (get_elem? blocks i)
                                  same)))
                | inr other ↦
                    ap (override_or (base + i) rest)
                      (get_elem?-set_other blocks i (idx - base) state (ground arith))
                    ∙ sym (override_or_other (base + i) idx state rest (get_elem? blocks i) other)
              ])
      | inr e ↦
          rw (apply_overrides, e)
            (apply_overrides-at base i rest blocks h size m
              ∙ sym
                  (override_or_other (base + i) idx state rest (get_elem? blocks i) (ground arith)))
    ]

-- The block of a cell: its override or that of its layer.
pub section_cells-at :
    (s i : ℕ) (overrides : List (ℕ × ℕ))
    → i < section_blocks
    → IsMap overrides
    → get_elem? (section_cells s overrides) i
      ≡ override_or
          (s * section_blocks + i)
          overrides
          (some (layer_block ((s * section_blocks + i) / column_cells)))
unfolding section_cells
section_cells-at s i overrides h m =
    apply_overrides-at (s * section_blocks) i overrides (superflat_blocks s) h
      (superflat_blocks_lem s).0 m
    ∙ ap (override_or (s * section_blocks + i) overrides) (superflat_blocks-at s i h)

pub sections_from-at :
    (overrides : List (ℕ × ℕ)) (s n k : ℕ)
    → k < n
    → get_elem? (sections_from overrides s n) k ≡ some (section_of overrides (s + k))
unfolding sections_from
sections_from-at overrides s zero k h = absurd (omega arith)
sections_from-at overrides s (suc n) zero h =
    ap (λ (k : ℕ). some (section_of overrides k)) (omega arith)
sections_from-at overrides s (suc n) (suc k) h =
    sections_from-at overrides (s + 1) n k (omega arith)
    ∙ ap (λ (j : ℕ). some (section_of overrides j)) (omega arith)
