-- ===== src/Session/Near.antt =====
-- The keys of the view are the columns within the view distance.
use gomc.Prelude.{ℕ, zero, suc, ◌+◌, ◌-◌, ◌^◌, ◌<◌, ◌≤◌, ◌≡◌, ◌∙◌, refl, ap, arith, ltb, leb}
use gomc.Prelude.{◌==◌, ◌&&◌, ◌||◌, List, [], ◌∷◌, ◌++◌, map, Bool, true, false, Option, none, some}
use mathlib.Core.List.{flat_map}
use gomc.World.Blocks.{same_chunk}
use gomc.Session.Chunks.{add32, sub32, around, grid, view, has}
use gomc.Session.Loops.{span, above_min, around-span}

-- At most eight from `c`, on the circle of the int32s.
abbrev pub near : ℕ → ℕ → Bool
near c a = leb (sub32 (add32 a 8) c) 16

-- A chunk coordinate whose view does not reach the least or the greatest int32.
abbrev pub IsInside : ℕ → Type 0
IsInside c = (c < 2 ^ 32) × ((8 ≤ above_min c) × (above_min c < 2 ^ 32 - 9))

abbrev elem : ℕ → List ℕ → Bool
elem a [] = false
elem a (b ∷ bs) = a == b || elem a bs

elem_next :
    (n a lo : ℕ) (e : Bool)
    → a < 2 ^ 32
    → lo < 2 ^ 32
    → n < 2 ^ 32
    → e ≡ ltb (sub32 a (add32 lo 1)) n
    → (a == lo || e) ≡ ltb (sub32 a lo) (suc n)
elem_next n a lo e ha hlo hn h = ground arith

elem-span :
    (n a lo : ℕ) → a < 2 ^ 32 → lo < 2 ^ 32 → n ≤ 2 ^ 32 → elem a (span n lo) ≡ ltb (sub32 a lo) n
elem-span zero a lo ha hlo hn = ground arith
elem-span (suc n) a lo ha hlo hn =
    elem_next n a lo _ ha hlo (omega arith)
      (elem-span n a (add32 lo 1) ha (omega arith) (omega arith))

-- What the loop around a coordinate visits.
around-near : (c : ℕ) → IsInside c → around c ≡ some (span 17 (sub32 c 8))
around-near c (word, (low, high)) =
    around-span c word (λ e. absurd (omega arith)) ∙ ap (λ n. some (span n (sub32 c 8))) seventeen
  where
    seventeen : above_min (add32 c 8) + 1 - above_min (sub32 c 8) ≡ 17
    seventeen = omega arith

elem-near : (c a : ℕ) → c < 2 ^ 32 → a < 2 ^ 32 → elem a (span 17 (sub32 c 8)) ≡ near c a
elem-near c a hc ha = elem-span 17 a (sub32 c 8) ha (omega arith) (omega arith) ∙ ground arith

or_assoc : (a b c : Bool) → (a || (b || c)) ≡ (a || b || c)
or_assoc true b c = refl
or_assoc false b c = refl

and_or : (a b c : Bool) → (a && b || (a && c)) ≡ (a && (b || c))
and_or true b c = refl
and_or false b c = refl

or_and : (a b c : Bool) → (a && c || (b && c)) ≡ ((a || b) && c)
or_and true true true = refl
or_and true true false = refl
or_and true false true = refl
or_and true false false = refl
or_and false b c = refl

has-append :
    (key : ℕ × ℕ) (as_ bs : List (ℕ × ℕ)) → has key (as_ ++ bs) ≡ (has key as_ || has key bs)
unfolding has
has-append key [] bs = refl
has-append key (a ∷ as_) bs =
    ap (λ b. same_chunk key a || b) (has-append key as_ bs) ∙ or_assoc (same_chunk key a) _ _

has-row : (x z x' : ℕ) (zs : List ℕ) → has (x, z) (map (λ z'. (x', z')) zs) ≡ (x == x' && elem z zs)
unfolding has
has-row x z x' [] = ground arith
has-row x z x' (z' ∷ zs) =
    ap (λ b. same_chunk (x, z) (x', z') || b) (has-row x z x' zs) ∙ and_or (x == x') _ _

has-grid : (x z : ℕ) (xs zs : List ℕ) → has (x, z) (grid xs zs) ≡ (elem x xs && elem z zs)
unfolding has grid flat_map
has-grid x z [] zs = refl
has-grid x z (x' ∷ xs) zs =
    has-append (x, z) (map (λ z'. (x', z')) zs) (grid xs zs)
    ∙ ap (λ b. b || has (x, z) (grid xs zs)) (has-row x z x' zs)
    ∙ ap (λ b. x == x' && elem z zs || b) (has-grid x z xs zs)
    ∙ or_and (x == x') _ _

-- The keys of the view around a centre.
unfoldable pub square : ℕ → ℕ → List (ℕ × ℕ)
square cx cz = grid (span 17 (sub32 cx 8)) (span 17 (sub32 cz 8))

-- The view from the values of its two loops.
abbrev crossed : Option (List ℕ) → Option (List ℕ) → Option (List (ℕ × ℕ))
crossed o p = elim o [
  | none ↦ none
  | some [] ↦ some []
  | some (x ∷ xs) ↦ elim p [ none ↦ none | some zs ↦ some (grid (x ∷ xs) zs) ]
]

pub view-square : (cx cz : ℕ) → IsInside cx → IsInside cz → view cx cz ≡ some (square cx cz)
unfolding view square
view-square cx cz hx hz =
    ap (λ o. crossed o (around cz)) (around-near cx hx)
    ∙ ap (crossed (some (span 17 (sub32 cx 8)))) (around-near cz hz)

pub has-square :
    (cx cz x z : ℕ)
    → cx < 2 ^ 32
    → cz < 2 ^ 32
    → x < 2 ^ 32
    → z < 2 ^ 32
    → has (x, z) (square cx cz) ≡ (near cx x && near cz z)
unfolding square
has-square cx cz x z hcx hcz hx hz =
    has-grid x z _ _
    ∙ ap (λ b. b && elem z (span 17 (sub32 cz 8))) (elem-near cx x hcx hx)
    ∙ ap (λ b. near cx x && b) (elem-near cz z hcz hz)
