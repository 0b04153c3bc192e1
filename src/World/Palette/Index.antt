-- ===== src/World/Palette/Index.antt =====
-- The palette lists every value of the container, its map finds each of them, and `bitsFor` gives
-- room for it.
use gomc.Prelude.{ℕ, zero, suc, ◌+◌, ◌*◌, ◌^◌, ◌<◌, ◌≤◌, ◌≡◌, refl, sym, ap, ◌∙◌, arith, inl, inr}
use gomc.Prelude.{List, [], ◌∷◌, ◌++◌, length, get_elem?, none, some, All, Bool-cases}
use gomc.Prelude.{Option-cases, ltb, ltb→lt, ==_iff, ◌==◌, if◌then◌else◌, true}
use gomc.World.Palette.{bits_loop, bits_for, Palette, add_value, scan_values, empty_palette}
use mathlib.Core.Option.{none-ne-some, some-injective}
use native.Mathlib.Numerals.{unary_clauses}

-- `n < 2 ^ n`
below_pow : (n : ℕ) → n < 2 ^ n
below_pow zero = omega arith
below_pow (suc n) = omega (arith, below_pow n, step)
  where
    step : 2 ^ suc n ≡ 2 * 2 ^ n
    step = simp unary_clauses (omega arith)

-- The loop ends at a width that has room, and the width before it, if the loop went on, has none.
bits_loop_lem :
    (fuel n bits : ℕ)
    → n ≤ 2 ^ (bits + fuel)
    → (n ≤ 2 ^ bits_loop fuel n bits) × ((k : ℕ) → bits ≤ k → k < bits_loop fuel n bits → 2 ^ k < n)
unfolding bits_loop
bits_loop_lem zero n bits h = (rw (same bits) at h, λ k lo hi. absurd (omega arith))
  where
    same : (b : ℕ) → b + 0 ≡ b
    same b = omega arith
bits_loop_lem (suc fuel) n bits h = elim (Bool-cases (ltb (2 ^ bits) n)) [
  | inr enough ↦ rw enough (ground arith, λ k lo hi. absurd (omega arith))
  | inl more ↦
      let next : bits + suc fuel ≡ bits + 1 + fuel = omega arith in
      let (room, least) = bits_loop_lem fuel n (bits + 1) (rw next at h) in
      rw more (
        room,
        λ k lo hi. elim (Bool-cases (ltb bits k)) [
          | inl above ↦ least k (omega (arith, ltb→lt bits k above)) hi
          | inr at_bits ↦ let here : k ≡ bits = ground arith in rw here (ltb→lt (2 ^ bits) n more)
        ],
      )
]

-- For every size of a palette, `bitsFor` is the least number of bits that can index it.
pub bits_for_least : (n : ℕ) → (n ≤ 2 ^ bits_for n) × ((k : ℕ) → k < bits_for n → 2 ^ k < n)
unfolding bits_for
bits_for_least n =
    let start : 0 + n ≡ n = omega arith in
    let (room, least) = bits_loop_lem n n 0 (rw start (omega (arith, below_pow n))) in
    (room, λ k hi. least k (omega arith) hi)

-- A value that is in the map, and in the palette at its index.
abbrev pub Found : Palette → ℕ → Type 0
Found p v = (i : ℕ) × (p.index v ≡ some i) × (get_elem? p.palette i ≡ some v)

get_elem?-append_left :
    (xs ys : List ℕ) (i : ℕ) {a : ℕ} → get_elem? xs i ≡ some a → get_elem? (xs ++ ys) i ≡ some a
get_elem?-append_left [] ys i h = absurd (none-ne-some _ h)
get_elem?-append_left (x ∷ xs) ys zero h = h
get_elem?-append_left (x ∷ xs) ys (suc i) h = get_elem?-append_left xs ys i h

get_elem?-last : (xs : List ℕ) (a : ℕ) → get_elem? (xs ++ a ∷ []) (length xs) ≡ some a
get_elem?-last [] a = refl
get_elem?-last (x ∷ xs) a = get_elem?-last xs a

add_value_old : (p : Palette) (v : ℕ) {i : ℕ} → p.index v ≡ some i → add_value p v ≡ p
unfolding add_value
add_value_old p v h = rw (add_value, h)

abbrev extended : Palette → ℕ → Palette
extended p v = record {
  palette = p.palette ++ (v ∷ []);
  index = λ u. if u == v then some (length p.palette) else p.index u;
}

add_value_new : (p : Palette) (v : ℕ) → p.index v ≡ none → add_value p v ≡ extended p v
unfolding add_value
add_value_new p v h = rw (add_value, h)

-- What was found stays found.
extended-Found : (p : Palette) (v u : ℕ) → p.index v ≡ none → Found p u → Found (extended p v) u
extended-Found p v u new (i, known, at_i) = elim (Bool-cases (u == v)) [
  | inl e ↦ absurd (none-ne-some _ (sym new ∙ ap p.index (sym ((==_iff u v).0 e)) ∙ known))
  | inr e ↦ (i, rw e known, get_elem?-append_left p.palette (v ∷ []) i at_i)
]

extended-Found_self : (p : Palette) (v : ℕ) → Found (extended p v) v
extended-Found_self p v =
    let same : (v == v) ≡ true = (==_iff v v).1 refl in
    (length p.palette, rw same, get_elem?-last p.palette v)

-- Every key of the map is found: what makes a palette well formed.
abbrev IsIndexed : Palette → Type 0
IsIndexed p = (u i : ℕ) → p.index u ≡ some i → get_elem? p.palette i ≡ some u

extended-IsIndexed :
    (p : Palette) (v : ℕ) → p.index v ≡ none → IsIndexed p → IsIndexed (extended p v)
extended-IsIndexed p v new h u i e = elim (Bool-cases (u == v)) [
  | inl same ↦
      let at_end : length p.palette ≡ i = some-injective _ _ (rw same at e) in
      rw ((==_iff u v).0 same, ← at_end) (get_elem?-last p.palette v)
  | inr other ↦ get_elem?-append_left p.palette (v ∷ []) i (h u i (rw other at e))
]

add_value_cases :
    (p : Palette) (v : ℕ)
    → IsIndexed p
    → IsIndexed (add_value p v)
      × Found (add_value p v) v
      × ((u : ℕ) → Found p u → Found (add_value p v) u)
add_value_cases p v h = elim (Option-cases (p.index v)) [
  | inl new ↦
      rw (add_value_new p v new)
        (extended-IsIndexed p v new h, extended-Found_self p v, λ u. extended-Found p v u new)
  | inr (i, known) ↦ rw (add_value_old p v known) (h, (i, known, h v i known), λ u f. f)
]

scan_values-Found_old :
    (vs : List ℕ) (p : Palette) → IsIndexed p → (u : ℕ) → Found p u → Found (scan_values p vs) u
unfolding scan_values
scan_values-Found_old [] p h u f = f
scan_values-Found_old (v ∷ vs) p h u f =
    let (h', self, kept) = add_value_cases p v h in
    scan_values-Found_old vs (add_value p v) h' u (kept u f)

scan-All : (vs : List ℕ) (p : Palette) → IsIndexed p → All (Found (scan_values p vs)) vs
unfolding scan_values
scan-All [] p h = tt
scan-All (v ∷ vs) p h =
    let (h', self, kept) = add_value_cases p v h in
    (scan_values-Found_old vs (add_value p v) h' v self, scan-All vs (add_value p v) h')

-- The palette of any list of values holds each of them at the index that the map gives it.
pub scan_values-Found : (vs : List ℕ) → All (Found (scan_values empty_palette vs)) vs
scan_values-Found vs = scan-All vs empty_palette λ u i e. absurd (none-ne-some _ e)
