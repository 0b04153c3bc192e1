-- ===== src/World/Blocks/Stored.antt =====
-- What SetBlock changes in the overrides, and what it leaves.
use gomc.Prelude.{ℕ, ◌+◌, ◌*◌, ◌%◌, ◌^◌, ◌<◌, ◌≤◌, ◌≡◌, refl, sym, ap, ◌∙◌, arith, inl, inr}
use gomc.Prelude.{List, [], ◌∷◌, Option, none, some, Bool, true, false, Bool-cases, ==_iff, bit_and}
use gomc.Prelude.{ltb, ltb→lt, lt→ltb, le→ltb, ◌==◌}
use gomc.Prelude.Bits.{bit_and_mask}
use gomc.World.Blocks.{World, find, put, same_chunk, chunk_coord, block_index, relative_y, column}
use gomc.World.Blocks.{set_block}
use mathlib.Core.Path.{subst}
use mathlib.Core.Bool.{true≢false}

module _ {K V : Type 0} (same : K → K → Bool) (sound : (a b : K) → same a b ≡ true → a ≡ b) where
  find-put_same :
      (k : K) (v : V) (m : List (K × V)) → same k k ≡ true → find same k (put same k v m) ≡ some v
  unfolding find put
  find-put_same k v [] h = rw h
  find-put_same k v ((k', v') ∷ m) h = elim (Bool-cases (same k k')) [
    | inl e ↦ rw (e, h)
    | inr e ↦ rw (e, e) (find-put_same k v m h)
  ]

  pub find-put_other :
      (j k : K) (v : V) (m : List (K × V))
      → same j k ≡ false
      → find same j (put same k v m) ≡ find same j m
  unfolding find put
  find-put_other j k v [] h = rw h
  find-put_other j k v ((k', v') ∷ m) h = elim (Bool-cases (same k k')) [
    | inl e ↦
        let other : same j k' ≡ false = subst (λ t. same j t ≡ false) (sound k k' e) h in
        rw (e, h, other)
    | inr e ↦
        rw e
          (elim (Bool-cases (same j k')) [ inl f ↦ rw f | inr f ↦ rw f (find-put_other j k v m h) ])
  ]

-- The override at a position, if there is one.
abbrev pub block_at : World → ℕ → ℕ → ℕ → Option ℕ
block_at w x y z = elim (block_index x y z) [
  | none ↦ none
  | some idx ↦ find ◌==◌ idx (column w (chunk_coord x, chunk_coord z))
]

same_refl : (n : ℕ) → (n == n) ≡ true
same_refl n = (==_iff n n).1 refl

same_chunk_refl : (k : ℕ × ℕ) → same_chunk k k ≡ true
same_chunk_refl (a, b) = rw (same_refl a, same_refl b)

same_chunk_sound : (a b : ℕ × ℕ) → same_chunk a b ≡ true → a ≡ b
same_chunk_sound (a, b) (c, d) h = elim (Bool-cases (a == c)) [
  | inl e ↦ ap (λ (p : ℕ × ℕ). p) (pair ((==_iff a c).0 e) ((==_iff b d).0 (rw e at h)))
  | inr e ↦ absurd (true≢false (sym (rw e at h)))
]
  where
    pair : a ≡ c → b ≡ d → ◌≡◌ {A = ℕ × ℕ} (a, b) (c, d)
    pair p q = rw (p, q)

-- The world after a write to a column.
abbrev written : World → ℕ × ℕ → ℕ → ℕ → World
written w key idx state = record {
  overrides = put same_chunk key (put ◌==◌ idx state (column w key)) w.overrides;
}

set_block_inside :
    (x y z state idx : ℕ) (w : World)
    → block_index x y z ≡ some idx
    → set_block x y z state w ≡ (written w (chunk_coord x, chunk_coord z) idx state, true)
unfolding set_block
set_block_inside x y z state idx w h = rw (set_block, h)

abbrev or_empty : Option (List (ℕ × ℕ)) → List (ℕ × ℕ)
or_empty o = elim o [ none ↦ [] | some col ↦ col ]

column-written :
    (w : World) (key : ℕ × ℕ) (idx state : ℕ)
    → column (written w key idx state) key ≡ put ◌==◌ idx state (column w key)
column-written w key idx state = ap or_empty (
    find-put_same same_chunk same_chunk_sound key (put ◌==◌ idx state (column w key)) w.overrides
      (same_chunk_refl key))

column-written_other :
    (w : World) (key other : ℕ × ℕ) (idx state : ℕ)
    → same_chunk other key ≡ false
    → column (written w key idx state) other ≡ column w other
column-written_other w key other idx state h = ap or_empty (
    find-put_other same_chunk same_chunk_sound other key (put ◌==◌ idx state (column w key))
      w.overrides h)

pub block_at_inside :
    (w : World) (x y z idx : ℕ)
    → block_index x y z ≡ some idx
    → block_at w x y z ≡ find ◌==◌ idx (column w (chunk_coord x, chunk_coord z))
block_at_inside w x y z idx h = rw (block_at, h)

-- A position in the build range that SetBlock accepts: it reports true, and afterwards the block is
-- found there.
pub set_block-block_at :
    (x y z state : ℕ) (w : World)
    → relative_y y < 384
    → ((set_block x y z state w).1 ≡ true)
      × (block_at (set_block x y z state w).0 x y z ≡ some state)
set_block-block_at x y z state w h =
    let idx : ℕ = relative_y y * 256 + bit_and z 15 * 16 + bit_and x 15 in
    let key : ℕ × ℕ = (chunk_coord x, chunk_coord z) in
    let inside : block_index x y z ≡ some idx =
      unfold block_index in rw (lt→ltb (relative_y y) 384 h) in
    rw (set_block_inside x y z state idx w inside) (
      refl,
      block_at_inside (written w key idx state) x y z idx inside
          ∙ ap (find ◌==◌ idx) (column-written w key idx state)
          ∙ find-put_same ◌==◌ (λ a b. (==_iff a b).0) idx state (column w key) (same_refl idx),
    )

-- Outside the build range SetBlock reports false and changes nothing.
pub set_block_outside :
    (x y z state : ℕ) (w : World) → 384 ≤ relative_y y → set_block x y z state w ≡ (w, false)
unfolding set_block
set_block_outside x y z state w h =
    let outside : block_index x y z ≡ none =
      unfold block_index in rw (le→ltb (relative_y y) 384 h) in
    rw (set_block, outside)

block_index_inside :
    (x y z : ℕ)
    → relative_y y < 384
    → block_index x y z ≡ some (relative_y y * 256 + bit_and z 15 * 16 + bit_and x 15)
unfolding block_index
block_index_inside x y z h = rw (lt→ltb (relative_y y) 384 h)

-- A coordinate is known by its chunk and its place in the chunk.
chunk_coord_inj :
    (c d : ℕ)
    → c < 2 ^ 32
    → d < 2 ^ 32
    → chunk_coord c ≡ chunk_coord d
    → bit_and c 15 ≡ bit_and d 15
    → c ≡ d
unfolding chunk_coord
chunk_coord_inj c d hc hd he hm = ground (arith, bit_and_mask 4 c, bit_and_mask 4 d)

-- Two cells of one column with one index are one position.
cell_inj :
    (x y z x' y' z' : ℕ)
    → x < 2 ^ 32 × y < 2 ^ 32 × z < 2 ^ 32
    → x' < 2 ^ 32 × y' < 2 ^ 32 × z' < 2 ^ 32
    → ◌≡◌ {A = ℕ × ℕ} (chunk_coord x', chunk_coord z') (chunk_coord x, chunk_coord z)
    → relative_y y' * 256 + bit_and z' 15 * 16 + bit_and x' 15
      ≡ relative_y y * 256 + bit_and z 15 * 16 + bit_and x 15
    → (x' ≡ x) × (y' ≡ y) × (z' ≡ z)
cell_inj x y z x' y' z' (hx, hy, hz) (hx', hy', hz') key idx = (
  chunk_coord_inj x' x hx' hx (ap (λ (p : ℕ × ℕ). p.0) key) (omega (arith, idx, mx, mx', mz, mz')),
  omega (arith, idx, mx, mx', mz, mz'),
  chunk_coord_inj z' z hz' hz (ap (λ (p : ℕ × ℕ). p.1) key) (omega (arith, idx, mx, mx', mz, mz')),
)
  where
    mx : bit_and x 15 ≡ x % 16
    mx = bit_and_mask 4 x

    mx' : bit_and x' 15 ≡ x' % 16
    mx' = bit_and_mask 4 x'

    mz : bit_and z 15 ≡ z % 16
    mz = bit_and_mask 4 z

    mz' : bit_and z' 15 ≡ z' % 16
    mz' = bit_and_mask 4 z'

module _ (x y z state : ℕ) (w : World) (x' y' z' : ℕ) (here : x < 2 ^ 32 × y < 2 ^ 32 × z < 2 ^ 32)
    (there : x' < 2 ^ 32 × y' < 2 ^ 32 × z' < 2 ^ 32)
    (apart : ¬ ((x' ≡ x) × (y' ≡ y) × (z' ≡ z))) where
  find_other :
      relative_y y < 384
      → relative_y y' < 384
      → find ◌==◌ (relative_y y' * 256 + bit_and z' 15 * 16 + bit_and x' 15) (
          column
            (written w
              (chunk_coord x, chunk_coord z)
              (relative_y y * 256 + bit_and z 15 * 16 + bit_and x 15)
              state)
            (chunk_coord x', chunk_coord z'))
        ≡ find ◌==◌
            (relative_y y' * 256 + bit_and z' 15 * 16 + bit_and x' 15)
            (column w (chunk_coord x', chunk_coord z'))
  find_other hy hy' =
      let idx : ℕ = relative_y y * 256 + bit_and z 15 * 16 + bit_and x 15 in
      let idx' : ℕ = relative_y y' * 256 + bit_and z' 15 * 16 + bit_and x' 15 in
      let key : ℕ × ℕ = (chunk_coord x, chunk_coord z) in
      let key' : ℕ × ℕ = (chunk_coord x', chunk_coord z') in
      elim (Bool-cases (same_chunk key' key)) [
        | inr e ↦ ap (find ◌==◌ idx') (column-written_other w key key' idx state e)
        | inl e ↦
            let k : key' ≡ key = same_chunk_sound key' key e in
            elim (Bool-cases (idx' == idx)) [
              | inl f ↦
                  absurd (apart (cell_inj x y z x' y' z' here there k ((==_iff idx' idx).0 f)))
              | inr f ↦
                  ap (λ t. find ◌==◌ idx' (column (written w key idx state) t)) k
                  ∙ ap (find ◌==◌ idx') (column-written w key idx state)
                  ∙ find-put_other ◌==◌ (λ a b. (==_iff a b).0) idx' idx state (column w key) f
                  ∙ ap (λ t. find ◌==◌ idx' (column w t)) (sym k)
            ]
      ]

  -- SetBlock changes no other position, whether it is accepted or not; all coordinates are int32
  -- words.
  pub set_block-block_at_other : block_at (set_block x y z state w).0 x' y' z' ≡ block_at w x' y' z'
  set_block-block_at_other = elim (Bool-cases (ltb (relative_y y) 384)) [
    | inr e ↦
        ap (λ (p : World × Bool). block_at p.0 x' y' z')
          (set_block_outside x y z state w (ground arith))
    | inl e ↦ elim (Bool-cases (ltb (relative_y y') 384)) [
      | inr f ↦
          let outside : block_index x' y' z' ≡ none = unfold block_index in rw f in
          rw (block_at, outside)
      | inl f ↦
          let hy = ltb→lt (relative_y y) 384 e in
          let hy' = ltb→lt (relative_y y') 384 f in
          ap (λ (p : World × Bool). block_at p.0 x' y' z')
            (set_block_inside x y z state _ w (block_index_inside x y z hy))
          ∙ block_at_inside _ x' y' z' _ (block_index_inside x' y' z' hy')
          ∙ find_other hy hy'
          ∙ sym (block_at_inside w x' y' z' _ (block_index_inside x' y' z' hy'))
    ]
  ]
