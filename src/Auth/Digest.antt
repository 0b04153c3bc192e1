-- ===== src/Auth/Digest.antt =====
-- The version and the variant of an offline UUID.
use gomc.Prelude.{ℕ, zero, suc, ◌/◌, ◌<◌, ◌≡◌, ◌≢◌, ◌∙◌, refl, sym, ap, arith}
use gomc.Prelude.{
  bit_and, bit_or, List, [], ◌∷◌, ◌++◌, length, get_or, set, take, length-set, take-append,
  append-nil,
}
use mathlib.Core.Path.{subst}
use gomc.Prelude.Bits.{bit_and_mask, bit_or_disjoint}
use gomc.Auth.{stamp, offline_uuid, offline_prefix}

get_or-set : (xs : List ℕ) (i v : ℕ) → i < length xs → get_or (set xs i v) i 0 ≡ v
get_or-set [] i v h = absurd (omega arith)
get_or-set (x ∷ xs) zero v h = refl
get_or-set (x ∷ xs) (suc i) v h = get_or-set xs i v (omega arith)

get_or-set_other : (xs : List ℕ) (i j v : ℕ) → i ≢ j → get_or (set xs i v) j 0 ≡ get_or xs j 0
get_or-set_other [] i j v h = refl
get_or-set_other (x ∷ xs) zero zero v h = absurd (h refl)
get_or-set_other (x ∷ xs) zero (suc j) v h = refl
get_or-set_other (x ∷ xs) (suc i) zero v h = refl
get_or-set_other (x ∷ xs) (suc i) (suc j) v h = get_or-set_other xs i j v (λ e. h (ap suc e))

version_three : (b : ℕ) → bit_or (bit_and b 0x0f) 0x30 / 16 ≡ 3
version_three b = omega (arith, bit_and_mask 4 b, bit_or_disjoint 4 (bit_and b 15) 3)

variant_two : (b : ℕ) → bit_or (bit_and b 0x3f) 0x80 / 64 ≡ 2
variant_two b = omega (arith, bit_and_mask 6 b, bit_or_disjoint 7 (bit_and b 63) 1)

-- Of the 16 bytes of a hash.
abbrev pub IsStamped : List ℕ → List ℕ → ℕ → Type 0
IsStamped m u i =
    (length u ≡ 16)
    × ((get_or u 6 0 / 16 ≡ 3) × ((get_or u 8 0 / 64 ≡ 2) × (get_or u i 0 ≡ get_or m i 0)))

stamp-IsStamped : (m : List ℕ) (i : ℕ) → length m ≡ 16 → i ≢ 6 → i ≢ 8 → IsStamped m (stamp m) i
unfolding stamp
stamp-IsStamped m i long not6 not8 =
    let v : List ℕ = set m 6 (bit_or (bit_and (get_or m 6 0) 0x0f) 0x30) in
    let v_long : length v ≡ 16 = length-set m 6 _ ∙ long in
    let w : ℕ = bit_or (bit_and (get_or v 8 0) 0x3f) 0x80 in
    let six : get_or (set v 8 w) 6 0 ≡ bit_or (bit_and (get_or m 6 0) 0x0f) 0x30 =
      get_or-set_other v 8 6 w (λ e. absurd (omega arith)) ∙ get_or-set m 6 _ (omega arith) in
    (
      length-set v 8 w ∙ v_long,
      (
        ap (λ b. b / 16) six ∙ version_three (get_or m 6 0),
        (
          ap (λ b. b / 64) (get_or-set v 8 w (omega arith)) ∙ variant_two (get_or v 8 0),
          get_or-set_other v 8 i w (λ e. not8 (sym e))
              ∙ get_or-set_other m 6 i _ (λ e. not6 (sym e)),
        ),
      ),
    )

take-all : (xs : List ℕ) (n : ℕ) → length xs ≡ n → take n xs ≡ xs
take-all xs n h =
    ap (λ k. take k xs) (sym h) ∙ ap (take (length xs)) (sym (append-nil xs)) ∙ take-append xs []

-- Where md5 gives 16 bytes, an offline UUID has 16 bytes, the version 3 and the variant of RFC 4122,
-- and every byte but the two that hold these is md5's.
pub offline_uuid-IsStamped :
    (md5 : List ℕ → List ℕ) (name : List ℕ) (i : ℕ)
    → length (md5 (offline_prefix ++ name)) ≡ 16
    → i ≢ 6
    → i ≢ 8
    → IsStamped (md5 (offline_prefix ++ name)) (offline_uuid md5 name) i
unfolding offline_uuid
offline_uuid-IsStamped md5 name i long not6 not8 =
    subst (λ m. IsStamped (md5 (offline_prefix ++ name)) (stamp m) i) (sym (take-all _ 16 long))
      (stamp-IsStamped _ i long not6 not8)
