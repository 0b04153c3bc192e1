-- ===== src/Packet/Trailing.antt =====
-- `trailingVarInt` of inventory.go finds the number that ends a packet.
use gomc.Prelude.{
  ℕ, zero, suc, ◌+◌, ◌-◌, ◌*◌, ◌/◌, ◌%◌, ◌^◌, ◌<◌, ◌≤◌, ◌≡◌, refl, ap, ◌∙◌, arith, inl, inr,
}
use gomc.Prelude.{List, [], ◌∷◌, ◌++◌, length, get_or, drop, ltb, bit_and}
use gomc.Prelude.{length-append, drop-append, Bool-cases, ltb→lt}
use gomc.Codec.Writer
use gomc.Codec.VarInt.{groups, var_int-groups, top_bit, length-groups, add_group_lem, group_fits}
use gomc.Codec.VarInt.{split_groups}
use gomc.Prelude.{false}
use gomc.Codec.Reader.{add_group}
use native.Mathlib.Numerals.{unary_clauses}
use gomc.Packet.Playing.{scan_back, gather, trailing_var_int}

get_or-append : (xs ys : List ℕ) (i : ℕ) → get_or (xs ++ ys) (length xs + i) 0 ≡ get_or ys i 0
get_or-append [] ys i = ap (λ (t : ℕ). get_or ys t 0) (omega arith)
get_or-append (x ∷ xs) ys i =
    let next : suc (length xs) + i ≡ suc (length xs + i) = omega arith in
    ap (λ (t : ℕ). get_or (x ∷ (xs ++ ys)) t 0) next ∙ get_or-append xs ys i

get_or-append_left :
    (xs ys : List ℕ) (i : ℕ) → i < length xs → get_or (xs ++ ys) i 0 ≡ get_or xs i 0
get_or-append_left [] ys i h = absurd (omega arith)
get_or-append_left (x ∷ xs) ys zero h = refl
get_or-append_left (x ∷ xs) ys (suc i) h = get_or-append_left xs ys i (omega arith)

-- All groups but the last have the high bit.
inner_group :
    (k v j : ℕ)
    → v < 128 ^ suc k
    → suc j < length (groups k v)
    → (128 ≤ get_or (groups k v) j 0) × (get_or (groups k v) j 0 < 256)
unfolding groups
inner_group zero v j h lt = absurd (omega arith)
inner_group (suc k) v zero h lt = ground arith
inner_group (suc k) v (suc j) h lt = elim (Bool-cases (ltb v 128)) [
  | inl small ↦ absurd (omega (arith, rw small at lt))
  | inr large ↦ rw large (inner_group k (v / 128) j (omega arith) (omega (arith, rw large at lt)))
]

groups_more :
    (k v : ℕ) → ltb v 128 ≡ false → groups (suc k) v ≡ (v % 128 + 128) ∷ groups k (v / 128)
unfolding groups
groups_more k v large = rw large

last_group :
    (b result shift : ℕ)
    → b < 128
    → result < 2 ^ shift
    → result + b * 2 ^ shift < 2 ^ 32
    → add_group 32 result b shift ≡ result + b * 2 ^ shift
last_group b result shift h fits whole =
    let small : b % 128 ≡ b = omega arith in
    rw small at (add_group_lem 32 result b shift fits (rw small whole))

more_group :
    (v result shift : ℕ)
    → result < 2 ^ shift
    → result + v % 128 * 2 ^ shift < 2 ^ 32
    → add_group 32 result (v % 128 + 128) shift ≡ result + v % 128 * 2 ^ shift
more_group v result shift fits whole =
    let low : (v % 128 + 128) % 128 ≡ v % 128 = omega arith in
    rw low at (add_group_lem 32 result (v % 128 + 128) shift fits (rw low whole))

gather-groups :
    (k v result shift : ℕ)
    → v < 128 ^ suc k
    → result < 2 ^ shift
    → result + v * 2 ^ shift < 2 ^ 32
    → gather (groups k v) result shift ≡ result + v * 2 ^ shift
unfolding groups gather
gather-groups zero v result shift h hr hw = last_group v result shift (omega arith) hr hw
gather-groups (suc k) v result shift h hr hw = elim (Bool-cases (ltb v 128)) [
  | inl small ↦ rw small (last_group v result shift (ltb→lt v 128 small) hr hw)
  | inr large ↦
      ap (λ l. gather l result shift) (groups_more k v large)
      ∙ ap (λ t. gather (groups k (v / 128)) t (shift + 7))
          (more_group v result shift hr (omega (arith, split_groups v shift)))
      ∙ gather-groups k (v / 128) (result + v % 128 * 2 ^ shift) (shift + 7) (omega arith)
          (group_fits v result shift hr) (omega (arith, split_groups v shift))
      ∙ omega (arith, split_groups v shift)
]

scan_stop : (b : List ℕ) (i : ℕ) → get_or b i 0 < 128 → scan_back b (suc i) ≡ suc i
unfolding scan_back
scan_stop b i h =
    let clear : bit_and (get_or b i 0) 0x80 ≡ 0 =
      omega (arith, top_bit (get_or b i 0) (omega arith)) in
    rw clear

scan_more :
    (b : List ℕ) (i : ℕ)
    → (128 ≤ get_or b i 0) × (get_or b i 0 < 256)
    → scan_back b (suc i) ≡ scan_back b i
unfolding scan_back
scan_more b i (lo, hi) =
    let high : bit_and (get_or b i 0) 0x80 ≡ 128 = omega (arith, top_bit (get_or b i 0) hi) in
    rw high

module _ (before : List ℕ) (k v : ℕ) (h : v < 128 ^ suc k) where
  scan_before :
      (n : ℕ)
      → length before ≡ n
      → get_or before (n - 1) 0 < 128
      → scan_back (before ++ groups k v) n ≡ n
  unfolding scan_back
  scan_before zero e clear = refl
  scan_before (suc n) e clear =
      scan_stop _ n (rw (get_or-append_left before (groups k v) n (omega arith)) (rw same at clear))
    where
      same : suc n - 1 ≡ n
      same = omega arith

  scan :
      (j : ℕ)
      → j < length (groups k v)
      → get_or before (length before - 1) 0 < 128
      → scan_back (before ++ groups k v) (length before + j) ≡ length before
  scan zero lt clear = simp unary_clauses (scan_before (length before) refl clear)
  scan (suc j) lt clear = simp unary_clauses (
      scan_more _ (length before + j)
        (rw (get_or-append before (groups k v) j) (inner_group k v j h lt))
      ∙ scan j (omega arith) clear)

trailing_lem :
    (b : List ℕ)
    → 0 < length b
    → trailing_var_int b ≡ gather (drop (scan_back b (length b - 1)) b) 0 0
unfolding trailing_var_int
trailing_lem [] h = absurd (omega arith)
trailing_lem (x ∷ b) h = let same : suc (length b) - 1 ≡ length b = omega arith in rw same

-- Whatever bytes stand before it, provided that the last of them, if there is one, is below 128, an
-- int32 that VarInt wrote at the end is found.
pub trailing_var_int-var_int :
    (before : List ℕ) (v : ℕ)
    → get_or before (length before - 1) 0 < 128
    → v < 2 ^ 32
    → trailing_var_int (before ++ Writer.var_int v) ≡ v
trailing_var_int-var_int before v clear h =
    let (lo, hi) = length-groups 4 v in
    let size = length-append before (groups 4 v) in
    let last : length (before ++ groups 4 v) - 1 ≡ length before + (length (groups 4 v) - 1) =
      omega (arith, size, lo) in
    rw
      (
        var_int-groups v h,
        trailing_lem (before ++ groups 4 v) (omega (arith, size, lo)),
        last,
        scan before 4 v (omega arith) (length (groups 4 v) - 1) (omega (arith, lo)) clear,
        drop-append before (groups 4 v),
      )
      (gather-groups 4 v 0 0 (omega arith) (omega arith) (omega arith) ∙ omega arith)
