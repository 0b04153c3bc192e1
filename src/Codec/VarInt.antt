-- ===== src/Codec/VarInt.antt =====
-- The groups that the VarInt and VarLong loops write, and how the Reader's loop takes them.
use gomc.Prelude.{ℕ, zero, suc, ◌+◌, ◌*◌, ◌/◌, ◌%◌, ◌^◌, ◌<◌, ◌≤◌, ◌≡◌, ap, ◌∙◌, arith}
use gomc.Prelude.{List, [], ◌∷◌, length, lt_wf, bit_and, bit_or, ltb}
use gomc.Prelude.{if◌then◌else◌, All, inl, inr, Bool-cases, ltb→lt}
use mathlib.Core.Path.{subst}
use gomc.Prelude.Bits.{bit_and_step, bit_or_disjoint, bit_and_mask}
use gomc.Codec.Reader
use gomc.Codec.Writer
use gomc.Codec.Reader.{Error, add_group, pure}
use gomc.Codec.Reads.{Reads, pure-Reads, take_bind-Reads, when_true-Reads, when_false-Reads}
use mathlib.Core.WellFounded.{Acc}
use native.Mathlib.Nat.{mod-eq_of_lt, add_assoc, div-add-mod}
use native.Mathlib.Numerals.{towards_suc}

-- The groups of seven bits of `v`, lowest first, for `v` below 128 ^ (k + 1).
unfoldable pub groups : ℕ → ℕ → List ℕ
groups zero v = v ∷ []
groups (suc k) v =
    let rest = groups k (v / 128) in if ltb v 128 then v ∷ [] else (v % 128 + 128) ∷ rest

low_group : (v : ℕ) → bit_and v 0x7f ≡ v % 128
low_group v = bit_and_mask 7 v

-- A mask without its lowest bit does not read that of the number.
even_mask : (b m : ℕ) → bit_and b (2 * m) ≡ 2 * bit_and (b / 2) m
even_mask b m =
    let rest : 2 * m / 2 ≡ m = omega arith in omega (arith, rw rest at (bit_and_step b (2 * m)))

two_bits : (b m : ℕ) → bit_and b (4 * m) ≡ 4 * bit_and (b / 4) m
two_bits b m =
    let mask : 4 * m ≡ 2 * (2 * m) = omega arith in
    let shifted : b / 2 / 2 ≡ b / 4 = omega arith in
    rw mask (omega (arith, even_mask b (2 * m), rw shifted at (even_mask (b / 2) m)))

pub top_bit : (b : ℕ) → b < 256 → bit_and b 0x80 ≡ b / 128 * 128
top_bit b h = omega (
  arith,
  two_bits b 32,
  two_bits (b / 4) 8,
  two_bits (b / 4 / 4) 2,
  even_mask (b / 4 / 4 / 4) 1,
  bit_and_mask 1 (b / 4 / 4 / 4 / 2),
)

inner_byte : (v : ℕ) → bit_or (bit_and v 0x7f) 0x80 ≡ v % 128 + 128
inner_byte v = ap (λ t. bit_or t 0x80) (low_group v) ∙ bit_or_disjoint 7 (v % 128) 1 (omega arith)

var_loop-groups : (k v : ℕ) (w : Acc ◌<◌ v) → v < 128 ^ suc k → Writer.var_loop v w ≡ groups k v
unfolding Writer.var_loop groups
var_loop-groups zero v (Acc.intro _ smaller) h = ground (arith, low_group v)
var_loop-groups (suc k) v (Acc.intro _ smaller) h = grind (
  arith,
  low_group v,
  inner_byte v,
  λ (w : Acc ◌<◌ (v / 128)). var_loop-groups k (v / 128) w (omega arith),
)

pub var_int-groups : (v : ℕ) → v < 2 ^ 32 → Writer.var_int v ≡ groups 4 v
unfolding Writer.var_int
var_int-groups v h = var_loop-groups 4 v (lt_wf.apply v) (omega arith)

pub var_long-groups : (v : ℕ) → v < 2 ^ 64 → Writer.var_long v ≡ groups 9 v
unfolding Writer.var_long
var_long-groups v h = var_loop-groups 9 v (lt_wf.apply v) (omega arith)

pub groups-All : (k v : ℕ) → v < 128 ^ suc k → All (λ b. b < 256) (groups k v)
unfolding groups
groups-All zero v h = omega arith
groups-All (suc k) v h = ground (arith, groups-All k (v / 128) (omega arith))

pub length-groups : (k v : ℕ) → (1 ≤ length (groups k v)) × (length (groups k v) ≤ k + 1)
unfolding groups
length-groups zero v = omega arith
length-groups (suc k) v = ground (arith, length-groups k (v / 128))

-- Room for one more group changes nothing.
pub groups_stable : (k v : ℕ) → v < 128 ^ suc k → groups (suc k) v ≡ groups k v
unfolding groups
groups_stable zero v h = ground arith
groups_stable (suc k) v h = ground (arith, groups_stable k (v / 128) (omega arith))

pow-add_seven : (s : ℕ) → 2 ^ (s + 7) ≡ 128 * 2 ^ s
pow-add_seven s = simp towards_suc (omega arith)

pub add_group_lem :
    (w result b shift : ℕ)
    → result < 2 ^ shift
    → result + b % 128 * 2 ^ shift < 2 ^ w
    → add_group w result b shift ≡ result + b % 128 * 2 ^ shift
add_group_lem w result b shift fits whole =
    rw (low_group b, mod-eq_of_lt below) (bit_or_disjoint shift result (b % 128) fits)
  where
    below : b % 128 * 2 ^ shift < 2 ^ w
    below = omega arith

-- The lowest group of `v` and the rest, both shifted by `s`.
pub split_groups : (v s : ℕ) → v * 2 ^ s ≡ v % 128 * 2 ^ s + v / 128 * 2 ^ (s + 7)
split_groups v s = omega (
  arith,
  ap (λ (t : ℕ). t * 2 ^ s) (div-add-mod v 128),
  ap (λ (t : ℕ). v / 128 * t) (pow-add_seven s),
)

pub group_fits : (v r s : ℕ) → r < 2 ^ s → r + v % 128 * 2 ^ s < 2 ^ (s + 7)
group_fits v r s h = omega (arith, pow-add_seven s, at_most (v % 128) (2 ^ s) (omega arith))
  where
    at_most : (g p : ℕ) → g < 128 → g * p ≤ 127 * p
    at_most g p lt = grind arith

module _ (w : ℕ) (e : Error) where
  last_byte :
      (rounds b result shift : ℕ)
      → b < 128
      → result < 2 ^ shift
      → result + b * 2 ^ shift < 2 ^ w
      → Reads (Reader.var_loop w e (suc rounds) result shift) (b ∷ []) (result + b * 2 ^ shift)
  unfolding Reader.var_loop
  last_byte rounds b result shift hb fits whole =
      take_bind-Reads (b ∷ []) 0 _ (when_true-Reads _ _ (rw clear) (rw added (pure-Reads _)))
    where
      clear : bit_and b 0x80 ≡ 0
      clear = omega (arith, top_bit b (omega arith))

      small : b % 128 ≡ b
      small = omega arith

      added : add_group w result b shift ≡ result + b * 2 ^ shift
      added = rw small at (add_group_lem w result b shift fits (rw small whole))

  more_byte :
      (rounds g result shift : ℕ) {bs : List ℕ} {v : ℕ}
      → g < 128
      → result < 2 ^ shift
      → result + g * 2 ^ shift < 2 ^ w
      → Reads (Reader.var_loop w e rounds (result + g * 2 ^ shift) (shift + 7)) bs v
      → Reads (Reader.var_loop w e (suc rounds) result shift) ((g + 128) ∷ bs) v
  unfolding Reader.var_loop
  more_byte rounds g result shift hg fits whole rest =
      take_bind-Reads ((g + 128) ∷ []) 0 _ (when_false-Reads _ _ (rw high) (rw added rest))
    where
      high : bit_and (g + 128) 0x80 ≡ 128
      high = omega (arith, top_bit (g + 128) (omega arith))

      small : (g + 128) % 128 ≡ g
      small = omega arith

      added : add_group w result (g + 128) shift ≡ result + g * 2 ^ shift
      added = rw small at (add_group_lem w result (g + 128) shift fits (rw small whole))

  -- `v` is what is still to be read, and it counts from bit `shift` on.
  var_loop-Reads :
      (k rounds v result shift : ℕ)
      → v < 128 ^ suc k
      → k < rounds
      → result < 2 ^ shift
      → result + v * 2 ^ shift < 2 ^ w
      → Reads (Reader.var_loop w e rounds result shift) (groups k v) (result + v * 2 ^ shift)
  unfolding groups
  var_loop-Reads k zero v result shift hv hk fits whole = absurd (omega arith)
  var_loop-Reads zero (suc rounds) v result shift hv hk fits whole =
      last_byte rounds v result shift (omega arith) fits whole
  var_loop-Reads (suc k) (suc rounds) v result shift hv hk fits whole =
      elim (Bool-cases (ltb v 128)) [
        | inl small ↦ rw small (last_byte rounds v result shift (ltb→lt v 128 small) fits whole)
        | inr large ↦
            rw (large, split_groups v shift, ← add_assoc result _ _)
              (more_byte rounds (v % 128) result shift (omega arith) fits
                (omega (arith, split_groups v shift))
                (var_loop-Reads k rounds (v / 128) (result + v % 128 * 2 ^ shift) (shift + 7)
                  (omega arith) (omega arith) (group_fits v result shift fits)
                  (omega (arith, split_groups v shift))))
      ]

  from_zero :
      (k rounds v : ℕ)
      → v < 128 ^ suc k
      → k < rounds
      → v < 2 ^ w
      → Reads (Reader.var_loop w e rounds 0 0) (groups k v) v
  from_zero k rounds v hv hk fits =
      subst (λ t. Reads (Reader.var_loop w e rounds 0 0) (groups k v) t) (omega arith)
        (var_loop-Reads k rounds v 0 0 hv hk (omega arith) (omega arith))

-- An int32 is read back from the bytes that it is written as.
pub var_int-Reads : (v : ℕ) → v < 2 ^ 32 → Reads Reader.var_int (Writer.var_int v) v
unfolding Reader.var_int
var_int-Reads v h = rw (var_int-groups v h) (from_zero 32 _ 4 5 v (omega arith) (omega arith) h)

-- An int64 is read back from the bytes that it is written as.
pub var_long-Reads : (v : ℕ) → v < 2 ^ 64 → Reads Reader.var_long (Writer.var_long v) v
unfolding Reader.var_long
var_long-Reads v h = rw (var_long-groups v h) (from_zero 64 _ 9 10 v (omega arith) (omega arith) h)

-- An int32 takes 1 to 5 bytes, and every element is a byte.
pub var_int_shape :
    (v : ℕ)
    → v < 2 ^ 32
    → All (λ b. b < 256) (Writer.var_int v)
      × (1 ≤ length (Writer.var_int v))
      × (length (Writer.var_int v) ≤ 5)
var_int_shape v h =
    let (lo, hi) = length-groups 4 v in
    rw (var_int-groups v h) (groups-All 4 v (omega arith), lo, hi)
