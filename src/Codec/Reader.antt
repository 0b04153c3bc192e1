-- ===== src/Codec/Reader.antt =====
-- internal/protocol/codec: the Reader of codec.go and reader.go. A byte is a number below 256, a
-- byte slice a list of them. A signed integer is its two's complement word, a float the word of its
-- bits, a string its bytes. A method takes the reader and gives its result and the reader
-- afterwards.
use mathlib.Core.List.{foldl}
use gomc.Prelude.{ℕ, zero, suc, ◌+◌, ◌-◌, ◌*◌, ◌/◌, ◌%◌, ◌^◌, bit_and, bit_or, ℤ, pos, negsuc}
use gomc.Prelude.{List, [], ◌∷◌, length, get_or, drop, replicate, take as first, Option, none, some}
use gomc.Prelude.{leb, signed}
use gomc.Codec.Utf8.{valid}
use gomc.Prelude.{Bool, ltb, ◌==◌, not, if◌then◌else◌}

-- The errors that are set in a Reader, by this package and, from `unknown_tag` on, by package nbt.
pub data Error : Type 0 where
  truncated var_int_too_long var_long_too_long string_too_long string_invalid : Error
  negative_length bit_set_too_long : Error
  unknown_tag : ℕ → Error
  bad_mutf8 neg_len too_deep : Error

pub record Reader : Type 0 where
  pub input : List ℕ
  pub pos : ℕ
  pub err : Option Error

abbrev pub Read : Type 0 → Type 0
Read A = Reader → A × Reader

-- The sequencing of reads stays shut, so that a proof about a method goes call by call.
infixl 5 ◌>>=◌ ◌>>◌
unfoldable pub ◌>>=◌ : {A B : Type 0} → Read A → (A → Read B) → Read B
◌>>=◌ m f r = let (a, r') = m r in f a r'

unfoldable pub ◌>>◌ : {B : Type 0} → Read (Unit {0}) → Read B → Read B
◌>>◌ m k r = let (a, r') = m r in k r'

unfoldable pub pure : {A : Type 0} → A → Read A
pure a r = (a, r)

-- `if r.err != nil { return zero }`
unfoldable pub if_failed : {A : Type 0} → A → Read A → Read A
if_failed a k r = elim r.err [ none ↦ k r | some e ↦ (a, r) ]

-- `if b { m } else { k }`
infix 1 when◌then◌else◌
unfoldable pub when◌then◌else◌ : {A : Type 0} → Bool → Read A → Read A → Read A
when◌then◌else◌ b m k r = if b then m r else k r

-- `if b == nil { return zero }` of a slice `b`.
unfoldable pub unless_nil : {A : Type 0} → A → (List ℕ → Read A) → Option (List ℕ) → Read A
unless_nil a k none = pure a
unless_nil a k (some b) = k b

unfoldable pub set_error : {A : Type 0} → Error → A → Read A
set_error e a r = (a, record r { err = some e })

unfoldable pub new_reader : List ℕ → Reader
new_reader bytes = record { input = bytes; pos = 0; err = none }

pub remaining : Reader → ℕ
remaining r = elim r.err [ none ↦ length r.input - r.pos | some e ↦ 0 ]

unfoldable pub fail : Error → Read (Unit {0})
fail e r = elim r.err [ none ↦ (tt, record r { err = some e }) | some _ ↦ (tt, r) ]

-- `none` is a nil slice.
unfoldable pub take : ℤ → Read (Option (List ℕ))
take (negsuc n) = if_failed none (set_error negative_length none)
take (pos n) = if_failed none λ r.
    if ltb (length r.input) (r.pos + n)
    then set_error truncated none r
    else (some (first n (drop r.pos r.input)), record r { pos = r.pos + n })

-- encoding/binary: the bytes of a slice, the highest first.
abbrev pub big_endian : List ℕ → ℕ
big_endian = foldl (λ v b. v * 256 + b) 0

-- `b := r.take(n); if b == nil { return 0 }; return binary.BigEndian.UintN(b)`
unfoldable pub fixed : ℕ → Read ℕ
fixed n = do b ← take (pos n); pure (elim b [ none ↦ 0 | some bytes ↦ big_endian bytes ])

unfoldable pub raw_byte : Read ℕ
raw_byte = do b ← take (pos 1); pure (elim b [ none ↦ 0 | some bytes ↦ get_or bytes 0 0 ])

unfoldable pub bool : Read Bool
bool = do b ← raw_byte; pure (not (b == 0))

abbrev pub u_byte : Read ℕ
u_byte = raw_byte

-- An int8 is its word too.
abbrev pub byte : Read ℕ
byte = raw_byte

abbrev pub angle : Read ℕ
angle = raw_byte

abbrev pub short : Read ℕ
short = fixed 2

abbrev pub u_short : Read ℕ
u_short = fixed 2

abbrev pub int : Read ℕ
int = fixed 4

abbrev pub long : Read ℕ
long = fixed 8

abbrev pub float : Read ℕ
float = fixed 4

abbrev pub double : Read ℕ
double = fixed 8

-- The loop of VarInt and VarLong, over words of `w` bits: `rounds` are left, then `e` is set.
-- `result |= uint32(b[0]&0x7F) << shift`
abbrev pub add_group : ℕ → ℕ → ℕ → ℕ → ℕ
add_group w result b shift = bit_or result (bit_and b 0x7f * 2 ^ shift % 2 ^ w)

unfoldable pub var_loop : ℕ → Error → ℕ → ℕ → ℕ → Read ℕ
var_loop w e zero result shift = set_error e 0
var_loop w e (suc rounds) result shift =
    take (pos 1)
    >>= unless_nil 0 λ bytes.
      let b = get_or bytes 0 0 in
      let result' = add_group w result b shift in
      let more = var_loop w e rounds result' (shift + 7) in
      when bit_and b 0x80 == 0 then pure result' else more

unfoldable pub var_int : Read ℕ
var_int = var_loop 32 var_int_too_long 5 0 0

unfoldable pub var_long : Read ℕ
var_long = var_loop 64 var_long_too_long 10 0 0

abbrev pub max_string_len : ℕ
max_string_len = 32767

abbrev max_bit_set_longs : ℕ
max_bit_set_longs = 2 ^ 16

-- `if maxLen <= 0 { maxLen = MaxStringLen }`; the callers pass no negative number.
abbrev pub string_cap : ℕ → ℕ
string_cap max_len = if max_len == 0 then max_string_len else max_len

-- `n < 0` of an int32.
abbrev pub is_negative : ℕ → Bool
is_negative n = leb (2 ^ 31) n

unfoldable pub string : ℕ → Read (List ℕ)
string max_len = do
  n ← var_int
  if_failed [] (
      when is_negative n
      then set_error negative_length []
      else when ltb (string_cap max_len * 4) n
      then set_error string_too_long []
      else (take (pos n)
          >>= unless_nil [] λ b. when valid b then pure b else set_error string_invalid []))

abbrev pub identifier : Read (List ℕ)
identifier = string max_string_len

-- A [16]byte; the zero value on failure.
unfoldable pub uuid : Read (List ℕ)
uuid = do b ← take (pos 16); pure (elim b [ none ↦ replicate 16 0 | some bytes ↦ bytes ])

-- `v >> k` of an int64, which fills with the sign, and `v << k`.
abbrev pub shift_right : ℕ → ℕ → ℕ
shift_right v k = if ltb v (2 ^ 63) then v / 2 ^ k else v / 2 ^ k + (2 ^ 64 - 2 ^ (64 - k))

abbrev pub shift_left : ℕ → ℕ → ℕ
shift_left v k = v * 2 ^ k % 2 ^ 64

abbrev pub to_int32 : ℕ → ℕ
to_int32 v = v % 2 ^ 32

unfoldable pub position : Read (ℕ × ℕ × ℕ)
position = do
  v ← long
  if_failed (0, 0, 0)
      (pure (
        to_int32 (shift_right v 38),
        to_int32 (shift_right (shift_left v 52) 52),
        to_int32 (shift_right (shift_left v 26) 38),
      ))

-- The copy of a nil slice is nil.
unfoldable pub raw : ℤ → Read (Option (List ℕ))
raw n = take n

unfoldable pub byte_array : Read (Option (List ℕ))
byte_array = do n ← var_int; if_failed none (raw (signed 32 n))

unfoldable pub remaining_bytes : Read (Option (List ℕ))
remaining_bytes = if_failed none λ r. raw (pos (length r.input - r.pos)) r

unfoldable pub longs : ℕ → Read (List ℕ)
longs zero = pure []
longs (suc n) = do l ← long; ls ← longs n; pure (l ∷ ls)

unfoldable pub bit_set : Read (Option (List ℕ))
bit_set = do
  n ← var_int
  if_failed none (
      when is_negative n
      then set_error negative_length none
      else when ltb max_bit_set_longs n
      then set_error bit_set_too_long none
      else (longs n >>= λ out. if_failed none (pure (some out))))
