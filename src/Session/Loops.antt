-- ===== src/Session/Loops.antt =====
-- The loops `for x := lo; x <= hi; x++` over int32s: what they visit, and whether they end.
use gomc.Prelude.{
  ℕ, zero, suc, ◌+◌, ◌-◌, ◌%◌, ◌^◌, ◌<◌, ◌≤◌, ◌≡◌, ◌≢◌, ◌∙◌, refl, sym, ap, arith, leb,
}
use gomc.Prelude.{List, [], ◌∷◌, true, false, Option, none, some, inl, inr, ◌⊎◌}
use gomc.Session.Chunks.{add32, sub32, leb32, range32, around}

-- The `n` int32s from `lo` on.
abbrev pub span : ℕ → ℕ → List ℕ
span zero lo = []
span (suc n) lo = lo ∷ span n (add32 lo 1)

-- An int32 above the least one.
abbrev pub above_min : ℕ → ℕ
above_min a = (a + 2 ^ 31) % 2 ^ 32

above_min_next : (a : ℕ) → above_min a < 2 ^ 32 - 1 → above_min (add32 a 1) ≡ above_min a + 1
above_min_next a h = omega arith

-- One round of the loop, with what the rest of it gives.
abbrev after : ℕ → Option (List ℕ) → Option (List ℕ)
after lo rest = elim rest [ none ↦ none | some xs ↦ some (lo ∷ xs) ]

range32_step :
    (fuel lo hi : ℕ)
    → leb32 lo hi ≡ true
    → range32 (suc fuel) lo hi ≡ after lo (range32 fuel (add32 lo 1) hi)
unfolding range32
range32_step fuel lo hi h = rw h refl

range32_end : (fuel lo hi : ℕ) → leb32 lo hi ≡ false → range32 (suc fuel) lo hi ≡ some []
unfolding range32
range32_end fuel lo hi h = rw h refl

within_cases : (a b : ℕ) → ((leb a b ≡ true) × (a ≤ b)) ⊎ ((leb a b ≡ false) × (b < a))
within_cases a b = ground arith

-- Nothing is left to visit, or the loop is a round and the span after it.
range32_none :
    (fuel lo hi n : ℕ) → leb32 lo hi ≡ false → n ≡ 0 → range32 (suc fuel) lo hi ≡ some (span n lo)
range32_none fuel lo hi n h e = range32_end fuel lo hi h ∙ ap (λ k. some (span k lo)) (sym e)

range32_round :
    (fuel lo hi m n : ℕ)
    → leb32 lo hi ≡ true
    → range32 fuel (add32 lo 1) hi ≡ some (span m (add32 lo 1))
    → suc m ≡ n
    → range32 (suc fuel) lo hi ≡ some (span n lo)
range32_round fuel lo hi m n h rest e =
    range32_step fuel lo hi h ∙ ap (after lo) rest ∙ ap (λ k. some (span k lo)) e

pub range32-span :
    (n lo hi : ℕ)
    → above_min hi < 2 ^ 32 - 1
    → above_min hi + 1 ≤ above_min lo + n
    → range32 (suc n) lo hi ≡ some (span (above_min hi + 1 - above_min lo) lo)
range32-span zero lo hi low enough = elim (within_cases (above_min lo) (above_min hi)) [
  | inl h ↦ absurd (omega arith)
  | inr h ↦ range32_none 0 lo hi _ h.0 (omega arith)
]
range32-span (suc n) lo hi low enough = elim (within_cases (above_min lo) (above_min hi)) [
  | inl h ↦
      let next : above_min (add32 lo 1) ≡ above_min lo + 1 = above_min_next lo (omega arith) in
      range32_round (suc n) lo hi _ _ h.0 (range32-span n (add32 lo 1) hi low (omega arith))
        (omega arith)
  | inr h ↦ range32_none (suc n) lo hi _ h.0 (omega arith)
]

-- Where the upper bound is the greatest int32, no fuel is enough.
pub range32_forever : (fuel lo : ℕ) → range32 fuel lo (2 ^ 31 - 1) ≡ none
range32_forever zero lo = unfold range32 in refl
range32_forever (suc fuel) lo =
    range32_step fuel lo (2 ^ 31 - 1) (ground arith)
    ∙ ap (after lo) (range32_forever fuel (add32 lo 1))

-- The number of int32s within the view distance of `c` that the loop visits: none where the view
-- reaches over the end of the int32s.
pub around-span :
    (c : ℕ)
    → c < 2 ^ 32
    → c ≢ 2 ^ 31 - 9
    → around c ≡ some (span (above_min (add32 c 8) + 1 - above_min (sub32 c 8)) (sub32 c 8))
unfolding around
around-span c word other = range32-span 17 (sub32 c 8) (add32 c 8) (omega arith) (omega arith)

pub around_forever : around (2 ^ 31 - 9) ≡ none
unfolding around
around_forever = range32_forever 18 (sub32 (2 ^ 31 - 9) 8)

-- The loop over one axis of the view ends for every centre but the int32 that is eight below the
-- greatest; for that centre no number of rounds reaches its end, wherever the loop is.
pub around-range32 :
    (c fuel lo : ℕ)
    → c < 2 ^ 32
    → (c ≢ 2 ^ 31 - 9 → (xs : List ℕ) × (around c ≡ some xs))
      × (range32 fuel lo (add32 (2 ^ 31 - 9) 8) ≡ none)
around-range32 c fuel lo word = (λ other. (_, around-span c word other), range32_forever fuel lo)
