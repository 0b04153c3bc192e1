-- ===== src/Codec/Compound.antt =====
-- Round trips of the values that are made of several primitives: strings, UUIDs, positions, byte
-- arrays and bit sets.
use gomc.Prelude.{ℕ, ◌+◌, ◌-◌, ◌*◌, ◌%◌, ◌^◌, ◌<◌, ◌≤◌, ◌≡◌, sym, ap, ◌∙◌, arith}
use gomc.Prelude.{some, none, pos, List, [], ◌∷◌, ◌++◌, length, true, false, All, le→ltb, bit_or}
use gomc.Prelude.{bit_and, signed, append-nil, length-append, drop-append, take-length}
use gomc.Prelude.Bits.{bit_or_fields, bit_and_mask}
use gomc.Codec.Utf8.{valid}
use gomc.Codec.Reader
use gomc.Codec.Writer
use gomc.Codec.Reader.{string_cap}
use gomc.Codec.Writer.{len32}
use gomc.Codec.Reads.{Reads, take-Reads, pure-Reads, bind-Reads, map-Reads, of_eq-Reads}
use gomc.Codec.Reads.{take_bind-Reads, when_true-Reads, when_false-Reads, if_failed-Reads}
use gomc.Codec.Numbers.{fixed-Reads}
use gomc.Codec.VarInt.{var_int-Reads}
use mathlib.Core.List.{flat_map}
use mathlib.Core.Path.{subst}
use native.Mathlib.Nat.{mod-eq_of_lt}

-- A length below 2 ^ 31 is written as itself.
pub len32-Reads {ℓ} :
    {A : Type ℓ} (s : List A)
    → length s < 2 ^ 31
    → Reads Reader.var_int (Writer.var_int (len32 s)) (length s)
len32-Reads s h =
    let same : len32 s ≡ length s = mod-eq_of_lt (omega arith) in
    rw same (var_int-Reads (length s) (omega arith))

pub not_negative : (n : ℕ) → n < 2 ^ 31 → Reader.is_negative n ≡ false
not_negative n h = ground arith

-- A string is read back from the bytes that it is written as, when it is valid UTF-8, takes no more
-- bytes than four times the limit, and takes fewer than 2^31. Its characters are not counted: of
-- one-byte characters, four times as many pass as the limit's name says.
pub string-Reads :
    (max_len : ℕ) (s : List ℕ)
    → valid s ≡ true
    → length s ≤ string_cap max_len * 4
    → length s < 2 ^ 31
    → Reads (Reader.string max_len) (Writer.string s) s
unfolding Reader.string Writer.string
string-Reads max_len s ok fits short = bind-Reads _ (len32-Reads s short) (
    if_failed-Reads [] (
      when_false-Reads _ _ (not_negative (length s) short) (
        when_false-Reads _ _ (le→ltb _ _ fits) (
          of_eq-Reads (append-nil s)
            (take_bind-Reads s [] _ (when_true-Reads _ _ ok (pure-Reads s)))))))

pub uuid-Reads : (u : List ℕ) → length u ≡ 16 → Reads Reader.uuid (Writer.uuid u) u
unfolding Reader.uuid
uuid-Reads u h = map-Reads _ (subst (λ n. Reads (Reader.take (pos n)) u (some u)) h (take-Reads u))

-- A byte array of fewer than 2^31 bytes is read back from the bytes that it is written as.
pub byte_array-Reads :
    (b : List ℕ) → length b < 2 ^ 31 → Reads Reader.byte_array (Writer.byte_array b) (some b)
unfolding Reader.byte_array Writer.byte_array Reader.raw
byte_array-Reads b h =
    bind-Reads _ (len32-Reads b h) (if_failed-Reads none (rw positive (take-Reads b)))
  where
    positive : signed 32 (length b) ≡ pos (length b)
    positive = ground arith

longs-Reads :
    (ls : List ℕ)
    → All (λ l. l < 2 ^ 64) ls
    → Reads (Reader.longs (length ls)) (flat_map Writer.long ls) ls
unfolding Reader.longs flat_map
longs-Reads [] h = pure-Reads []
longs-Reads (l ∷ ls) (hl, hls) =
    bind-Reads _ (fixed-Reads 8 l hl) (map-Reads _ (longs-Reads ls hls))

-- A bit set of at most 2^16 longs is read back from the bytes that it is written as.
pub bit_set-Reads :
    (ls : List ℕ)
    → length ls ≤ 2 ^ 16
    → All (λ l. l < 2 ^ 64) ls
    → Reads Reader.bit_set (Writer.bit_set ls) (some ls)
unfolding Reader.bit_set Writer.bit_set
bit_set-Reads ls short words = bind-Reads _ (len32-Reads ls (omega arith)) (
    if_failed-Reads none (
      when_false-Reads _ _ (not_negative (length ls) (omega arith)) (
        when_false-Reads _ _ (le→ltb _ _ short) (
          of_eq-Reads (append-nil _)
            (bind-Reads _ (longs-Reads ls words) (if_failed-Reads none (pure-Reads (some ls))))))))

-- An int32 word that stands for an integer of `k` bits.
abbrev pub Fits : ℕ → ℕ → Type 0
Fits k x = (x < 2 ^ 32) × ((x + 2 ^ (k - 1)) % 2 ^ 32 < 2 ^ k)

pack : (x y z : ℕ) → ℕ
pack x y z = x % 2 ^ 26 * 2 ^ 38 + z % 2 ^ 26 * 2 ^ 12 + y % 2 ^ 12

merge :
    (x z y : ℕ)
    → x < 2 ^ 26
    → z < 2 ^ 26
    → y < 2 ^ 12
    → bit_or (bit_or (Writer.field x 38) (Writer.field z 12)) y ≡ x * 2 ^ 38 + z * 2 ^ 12 + y
merge x z y hx hz hy =
    rw
      (
        mod-eq_of_lt {n = x * 2 ^ 38} {m = 2 ^ 64} (omega arith),
        mod-eq_of_lt {n = z * 2 ^ 12} {m = 2 ^ 64} (omega arith),
        bit_or_fields 38 x (z * 2 ^ 12) (omega arith),
        regroup,
      )
      (bit_or_fields 12 (x * 2 ^ 26 + z) y hy ∙ omega arith)
  where
    regroup : x * 2 ^ 38 + z * 2 ^ 12 ≡ (x * 2 ^ 26 + z) * 2 ^ 12
    regroup = omega arith

position-pack : (x y z : ℕ) → Writer.position x y z ≡ Writer.long (pack x y z)
unfolding Writer.position pack
position-pack x y z = ap Writer.long packed
  where
    packed :
        bit_or
          (bit_or (Writer.field (bit_and x 0x3ffffff) 38) (Writer.field (bit_and z 0x3ffffff) 12))
          (bit_and y 0xfff)
        ≡ pack x y z
    packed =
        rw (bit_and_mask 26 x, bit_and_mask 26 z, bit_and_mask 12 y)
          (merge (x % 2 ^ 26) (z % 2 ^ 26) (y % 2 ^ 12) (omega arith) (omega arith) (omega arith))

unpack_x : (x y z : ℕ) → Fits 26 x → Reader.to_int32 (Reader.shift_right (pack x y z) 38) ≡ x
unfolding pack
unpack_x x y z h = ground arith

unpack_y :
    (x y z : ℕ)
    → Fits 12 y
    → Reader.to_int32 (Reader.shift_right (Reader.shift_left (pack x y z) 52) 52) ≡ y
unfolding pack
unpack_y x y z h = ground arith

unpack_z :
    (x y z : ℕ)
    → Fits 26 z
    → Reader.to_int32 (Reader.shift_right (Reader.shift_left (pack x y z) 26) 38) ≡ z
unfolding pack
unpack_z x y z h = ground arith

-- A position whose x and z are sign-extended words of 26 bits, and whose y is one of 12, is read back
-- from the bytes that it is written as.
pub position-Reads :
    (x y z : ℕ)
    → Fits 26 x
    → Fits 12 y
    → Fits 26 z
    → Reads Reader.position (Writer.position x y z) (x, y, z)
unfolding Reader.position
position-Reads x y z hx hy hz = of_eq-Reads (append-nil _ ∙ sym (position-pack x y z)) (
    bind-Reads _ (fixed-Reads 8 (pack x y z) (fits x y z)) (
      if_failed-Reads (0, 0, 0)
        (rw (unpack_x x y z hx, unpack_y x y z hy, unpack_z x y z hz) (pure-Reads (x, y, z)))))
  where
    fits : (x y z : ℕ) → pack x y z < 256 ^ 8
    fits x y z = unfold pack in omega arith

-- The rest of the input, whatever it is.
pub remaining_bytes_rest :
    (before bs : List ℕ)
    → Reader.remaining_bytes (record { input = before ++ bs; pos = length before; err = none })
      ≡ (some bs, record { input = before ++ bs; pos = length before + length bs; err = none })
unfolding Reader.remaining_bytes Reader.raw Reader.if_failed Reader.take
remaining_bytes_rest before bs = rw (
  left,
  le→ltb (length (before ++ bs)) (length before + length bs) whole,
  drop-append before bs,
  take-length bs,
)
  where
    left : length (before ++ bs) - length before ≡ length bs
    left = omega (arith, length-append before bs)

    whole : length before + length bs ≤ length (before ++ bs)
    whole = omega (arith, length-append before bs)
