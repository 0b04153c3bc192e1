-- ===== src/World/Palette/Container.antt =====
-- A paletted container, as a client reads it: the number of bits of an entry, the palette where
-- there is one, and the packed entries.
use gomc.Prelude.{ℕ, zero, suc, ◌+◌, ◌-◌, ◌*◌, ◌/◌, ◌^◌, ◌<◌, ◌≤◌, ◌≡◌, refl, sym, ap, arith}
use gomc.Prelude.{List, [], ◌∷◌, ◌++◌, length, All, map, inl, inr, Bool-cases, true, ◌==◌}
use gomc.Prelude.{
  ltb, if◌then◌else◌, replicate, get_or, get_elem?, All-append, some, none, append_assoc,
  append-nil,
}
use gomc.Prelude.{length-append, ==_iff, ltb→lt, lt→ltb, le→ltb, Option-cases}
use mathlib.Core.List.{flat_map}
use mathlib.Core.Option.{none-ne-some, some-injective}
use mathlib.Core.Path.{subst}
use gomc.Codec.Reader
use gomc.Codec.Reader.{Read, ◌>>=◌, pure, when◌then◌else◌}
use gomc.Codec.Writer
use gomc.Codec.Writer.{len32}
use gomc.Codec.Reads.{
  Reads, pure-Reads, bind-Reads, map-Reads, of_eq-Reads, result_eq-Reads, when_true-Reads,
}
use gomc.Codec.Reads.{when_false-Reads}
use gomc.Codec.Numbers.{raw_byte-Reads}
use gomc.Codec.VarInt.{var_int-Reads}
use gomc.Codec.Compound.{len32-Reads}
use gomc.World.Palette.{
  PaletteKind, Palette, write_paletted_container, write_container, write_longs,
}
use gomc.World.Palette.{pack_longs, scan_values, empty_palette, add_value, index_of, bits_for}
use gomc.World.Palette.Index.{Found, scan_values-Found, bits_for_least}
use native.Mathlib.Nat.{le-div_iff_mul-le, div-mul-le_self, pow-le-pow_right}
use gomc.World.Palette.Fill.{fill}
use gomc.World.Palette.Packed.{read_cells, pack_longs-Reads}

unfoldable pub read_values : ℕ → Read (List ℕ)
read_values zero = pure []
read_values (suc n) = do v ← Reader.var_int; vs ← read_values n; pure (v ∷ vs)

-- The entries of `cells` cells, of `bits` bits each.
unfoldable pub read_longs : ℕ → ℕ → Read (List ℕ)
read_longs cells bits = read_cells bits (64 / bits - 1) cells 0 0

-- The rest, for the bits of an entry.
unfoldable pub read_entries : ℕ → PaletteKind → ℕ → Read (List ℕ)
read_entries cells kind bits =
    when bits == 0
    then (do v ← Reader.var_int; pure (replicate cells v))
    else (when ltb kind.max_bits bits then read_longs cells bits else (do
      n ← Reader.var_int
      palette ← read_values n
      entries ← read_longs cells bits
      pure (map (λ i. get_or palette i 0) entries)))

unfoldable pub read_container : ℕ → PaletteKind → Read (List ℕ)
read_container cells kind = do bits ← Reader.u_byte; read_entries cells kind bits

read_values-Reads :
    (vs : List ℕ)
    → All (λ v. v < 2 ^ 32) vs
    → Reads (read_values (length vs)) (flat_map Writer.var_int vs) vs
unfolding read_values flat_map
read_values-Reads [] h = pure-Reads []
read_values-Reads (v ∷ vs) (hv, hvs) =
    bind-Reads _ (var_int-Reads v hv) (map-Reads _ (read_values-Reads vs hvs))

pub write_longs-Reads :
    (values : List ℕ) (bits : ℕ) (map2idx : ℕ → ℕ)
    → 1 ≤ bits
    → bits ≤ 64
    → All (λ v. map2idx v < 2 ^ bits) values
    → Reads (read_longs (length values) bits) (write_longs values bits map2idx) (map map2idx values)
unfolding read_longs write_longs fill
write_longs-Reads values bits map2idx pos fits small =
    subst
      (λ (k : ℕ).
        Reads (read_longs (length values) bits) (pack_longs map2idx bits k values 0 0)
          (map map2idx values))
      per (pack_longs-Reads bits (64 / bits - 1) map2idx room values [] 0 (omega arith) tt small)
  where
    per : suc (64 / bits - 1) ≡ 64 / bits
    per =
        omega (arith, (le-div_iff_mul-le {k = bits} {x = 1} {y = 64} (omega arith)).1 (omega arith))

    room : suc (64 / bits - 1) * bits ≤ 64
    room = rw per (div-mul-le_self 64 bits)

add_value-All :
    (P : ℕ → Type 0) (p : Palette) (v : ℕ) → P v → All P p.palette → All P (add_value p v).palette
unfolding add_value
add_value-All P p v hv h = elim (Option-cases (p.index v)) [
  | inl e ↦ rw (add_value, e) (All-append P p.palette (v ∷ []) h (hv, tt))
  | inr (i, e) ↦ rw (add_value, e) h
]

scan_values-All :
    (P : ℕ → Type 0) (vs : List ℕ) (p : Palette)
    → All P vs
    → All P p.palette
    → All P (scan_values p vs).palette
unfolding scan_values
scan_values-All P [] p hs h = h
scan_values-All P (v ∷ vs) p (hv, hs) h =
    scan_values-All P vs (add_value p v) hs (add_value-All P p v hv h)

length-add_value : (p : Palette) (v : ℕ) → length (add_value p v).palette ≤ length p.palette + 1
unfolding add_value
length-add_value p v = elim (Option-cases (p.index v)) [
  | inl e ↦ rw (add_value, e) (omega (arith, length-append p.palette (v ∷ [])))
  | inr (i, e) ↦ rw (add_value, e) (omega arith)
]

length-scan_values :
    (vs : List ℕ) (p : Palette) → length (scan_values p vs).palette ≤ length p.palette + length vs
unfolding scan_values
length-scan_values [] p = omega arith
length-scan_values (v ∷ vs) p =
    omega (arith, length-scan_values vs (add_value p v), length-add_value p v)

get_elem?-lt : (xs : List ℕ) (i : ℕ) {a : ℕ} → get_elem? xs i ≡ some a → i < length xs
get_elem?-lt [] i h = absurd (none-ne-some _ h)
get_elem?-lt (x ∷ xs) zero h = omega arith
get_elem?-lt (x ∷ xs) (suc i) h = omega (arith, get_elem?-lt xs i h)

get_or_found : (xs : List ℕ) (i : ℕ) {a : ℕ} → get_elem? xs i ≡ some a → get_or xs i 0 ≡ a
get_or_found [] i h = absurd (none-ne-some _ h)
get_or_found (x ∷ xs) zero h = some-injective _ _ h
get_or_found (x ∷ xs) (suc i) h = get_or_found xs i h

get_elem?-single : (a i : ℕ) {v : ℕ} → get_elem? (a ∷ []) i ≡ some v → a ≡ v
get_elem?-single a zero h = some-injective _ _ h
get_elem?-single a (suc i) h = absurd (none-ne-some _ h)

module _ (p : Palette) where
  index_of_known : (v : ℕ) {i : ℕ} → p.index v ≡ some i → index_of p v ≡ i
  index_of_known v known = ap (λ o. elim o [ none ↦ 0 | some i ↦ i ]) known

  index_of-lt :
      (bits : ℕ) (vs : List ℕ)
      → length p.palette ≤ 2 ^ bits
      → All (Found p) vs
      → All (λ v. index_of p v < 2 ^ bits) vs
  index_of-lt bits [] room h = tt
  index_of-lt bits (v ∷ vs) room ((i, known, at_i), h) = (
    omega (arith, index_of_known v known, get_elem?-lt p.palette i at_i),
    index_of-lt bits vs room h,
  )

  map-index_of :
      (vs : List ℕ) → All (Found p) vs → map (λ i. get_or p.palette i 0) (map (index_of p) vs) ≡ vs
  map-index_of [] h = refl
  map-index_of (v ∷ vs) ((i, known, at_i), h) =
      rw (index_of_known v known, get_or_found p.palette i at_i, map-index_of vs h)

  single_value :
      (vs : List ℕ) (a : ℕ) → p.palette ≡ a ∷ [] → All (Found p) vs → replicate (length vs) a ≡ vs
  single_value [] a e h = refl
  single_value (v ∷ vs) a e ((i, known, at_i), h) =
      rw (single_value vs a e h, get_elem?-single a i (rw e at at_i))

map-id : (vs : List ℕ) → map (λ v. v) vs ≡ vs
map-id [] = refl
map-id (v ∷ vs) = ap (λ t. v ∷ t) (map-id vs)

-- The widths of a kind of container make sense.
abbrev pub IsKind : PaletteKind → Type 0
IsKind kind =
    1 ≤ kind.min_bits
    × kind.min_bits ≤ kind.max_bits
    × kind.max_bits < kind.direct_bits
    × kind.direct_bits ≤ 64

module _ (values : List ℕ) (kind : PaletteKind) where
  single-Reads :
      (p : Palette) (a : ℕ)
      → p.palette ≡ a ∷ []
      → a < 2 ^ 32
      → All (Found p) values
      → Reads
          (read_container (length values) kind)
          (Writer.u_byte 0 ++ flat_map Writer.var_int p.palette)
          values
  unfolding read_container read_entries flat_map
  single-Reads p a e small found = rw e (
      bind-Reads _ (raw_byte-Reads 0) (
        when_true-Reads _ _ refl (
          of_eq-Reads (sym (append-nil _)) (
            result_eq-Reads (single_value p values a e found)
              (map-Reads (replicate (length values)) (var_int-Reads a small))))))

  direct-Reads :
      kind.max_bits < kind.direct_bits
      → kind.direct_bits ≤ 64
      → All (λ v. v < 2 ^ kind.direct_bits) values
      → Reads
          (read_container (length values) kind)
          (Writer.u_byte kind.direct_bits ++ write_longs values kind.direct_bits (λ v. v))
          values
  unfolding read_container read_entries
  direct-Reads hi fits small = bind-Reads _ (raw_byte-Reads kind.direct_bits) (
      when_false-Reads _ _ (ground arith) (
        when_true-Reads _ _ (lt→ltb _ _ hi) (
          result_eq-Reads (map-id values)
            (write_longs-Reads values kind.direct_bits (λ v. v) (omega arith) fits small))))

  indirect-Reads :
      (p : Palette) (width : ℕ)
      → 1 ≤ width
      → width ≤ kind.max_bits
      → width ≤ 64
      → length p.palette ≤ 2 ^ width
      → All (Found p) values
      → All (λ v. v < 2 ^ 32) p.palette
      → length p.palette < 2 ^ 31
      → Reads
          (read_container (length values) kind)
          (Writer.u_byte width
            ++ Writer.var_int (len32 p.palette)
            ++ flat_map Writer.var_int p.palette
            ++ write_longs values width (index_of p))
          values
  unfolding read_container read_entries
  indirect-Reads p width pos under fits room found words few = of_eq-Reads (simp append_assoc) (
      bind-Reads _ (raw_byte-Reads width) (
        when_false-Reads _ _ (ground arith) (
          when_false-Reads _ _ (le→ltb kind.max_bits width under) (
            result_eq-Reads (map-index_of p values found) (
              bind-Reads _ (len32-Reads p.palette few) (
                bind-Reads _ (read_values-Reads p.palette words) (
                  map-Reads (map (λ i. get_or p.palette i 0)) (
                    write_longs-Reads values width (index_of p) pos fits
                      (index_of-lt p width values room found)))))))))

write_container-Reads :
    (p : Palette) (values : List ℕ) (kind : PaletteKind)
    → IsKind kind
    → All (Found p) values
    → All (λ v. v < 2 ^ 32) p.palette
    → length p.palette < 2 ^ 31
    → All (λ v. v < 2 ^ kind.direct_bits) values
    → Reads (read_container (length values) kind) (write_container p values kind) values
unfolding write_container
write_container-Reads p values kind (lo, mid, hi, fits) found words few small =
    elim (Bool-cases (length p.palette == 1)) [
      | inl one ↦
          let (a, e, ha) = only p.palette ((==_iff _ 1).0 one) words in
          rw (write_container, one) (single-Reads values kind p a e ha found)
      | inr many ↦ elim (Bool-cases (ltb kind.max_bits (bits_for (length p.palette)))) [
        | inl wide ↦ rw (write_container, many, wide) (direct-Reads values kind hi fits small)
        | inr narrow ↦
            let room = (bits_for_least (length p.palette)).0 in
            elim (Bool-cases (ltb (bits_for (length p.palette)) kind.min_bits)) [
              | inl low ↦
                  rw (write_container, many, narrow, low)
                    (indirect-Reads values kind p kind.min_bits lo mid (omega arith)
                      (wider _ _ room low) found words few)
              | inr high ↦
                  rw (write_container, many, narrow, high)
                    (indirect-Reads values kind p (bits_for (length p.palette)) (ground arith)
                      (ground arith) (ground arith) room found words few)
            ]
      ]
    ]
  where
    wider :
        (bits width : ℕ)
        → length p.palette ≤ 2 ^ bits
        → ltb bits width ≡ true
        → length p.palette ≤ 2 ^ width
    wider bits width room low =
        let under : bits ≤ width = omega (arith, ltb→lt bits width low) in
        omega (arith, room, pow-le-pow_right {n = 2} (omega arith) under)

    only :
        (xs : List ℕ)
        → length xs ≡ 1
        → All (λ v. v < 2 ^ 32) xs
        → (a : ℕ) × (xs ≡ a ∷ []) × (a < 2 ^ 32)
    only [] e h = absurd (omega arith)
    only (a ∷ []) e (h, _) = (a, refl, h)
    only (a ∷ b ∷ xs) e h = absurd (omega arith)

-- A client reads a paletted container back to its values, one for each cell: for every kind of
-- container whose widths are in order, and fewer than 2^31 values of 32 bits that fit the direct
-- width; the single value, the palette and the direct form alike.
pub write_paletted_container-Reads :
    (values : List ℕ) (kind : PaletteKind)
    → IsKind kind
    → length values < 2 ^ 31
    → All (λ v. v < 2 ^ 32) values
    → All (λ v. v < 2 ^ kind.direct_bits) values
    → Reads (read_container (length values) kind) (write_paletted_container values kind) values
unfolding write_paletted_container
write_paletted_container-Reads values kind ok few words small =
    write_container-Reads (scan_values empty_palette values) values kind ok
      (scan_values-Found values) (scan_values-All (λ v. v < 2 ^ 32) values empty_palette words tt)
      (omega (arith, length-scan_values values empty_palette)) small
