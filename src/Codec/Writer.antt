-- ===== src/Codec/Writer.antt =====
-- internal/protocol/codec/writer.go. A method of the Writer is the bytes that it appends to the
-- buffer, and two calls in a row are `++`.
use mathlib.Core.Logic.{dite}
use mathlib.Core.List.{flat_map}
use mathlib.Core.WellFounded.{Acc}
use native.Mathlib.Decide.{dec_lt}
use gomc.Prelude.{ℕ, zero, suc, ◌-◌, ◌*◌, ◌/◌, ◌%◌, ◌^◌, ◌<◌, bit_and, bit_or, arith, lt_wf}
use gomc.Prelude.{List, [], ◌∷◌, ◌++◌, length, Bool, if◌then◌else◌}

-- encoding/binary: the `n` bytes of a word, the highest first.
abbrev pub put_big_endian : ℕ → ℕ → List ℕ
put_big_endian zero v = []
put_big_endian (suc n) v = (v / 256 ^ n % 256) ∷ put_big_endian n v

unfoldable pub bool : Bool → List ℕ
bool v = if v then 1 ∷ [] else 0 ∷ []

abbrev pub byte : ℕ → List ℕ
byte v = v ∷ []

abbrev pub u_byte : ℕ → List ℕ
u_byte v = v ∷ []

abbrev pub angle : ℕ → List ℕ
angle v = v ∷ []

abbrev pub short : ℕ → List ℕ
short = put_big_endian 2

abbrev pub u_short : ℕ → List ℕ
u_short = put_big_endian 2

abbrev pub int : ℕ → List ℕ
int = put_big_endian 4

abbrev pub long : ℕ → List ℕ
long = put_big_endian 8

abbrev pub float : ℕ → List ℕ
float = put_big_endian 4

abbrev pub double : ℕ → List ℕ
double = put_big_endian 8

-- `uv &^ 0x7F`
abbrev pub high_groups : ℕ → ℕ
high_groups uv = uv - bit_and uv 0x7f

shift_shrinks : (uv : ℕ) → 0 < high_groups uv → uv / 2 ^ 7 < uv
shift_shrinks zero h = elim h [ ]
shift_shrinks (suc uv) h = omega arith

-- The loop of VarInt and VarLong, which ends because `uv >>= 7` makes a positive word smaller.
unfoldable pub var_loop : (uv : ℕ) → Acc ◌<◌ uv → List ℕ
unfolding shift_shrinks
var_loop uv (Acc.intro _ smaller) =
    dite (dec_lt 0 (high_groups uv))
      (λ more.
        bit_or (bit_and uv 0x7f) 0x80 ∷ var_loop (uv / 2 ^ 7) (smaller _ (shift_shrinks uv more)))
      (λ _. (uv % 256) ∷ [])

unfoldable pub var_int : ℕ → List ℕ
unfolding var_loop lt_wf dec_lt
var_int v = var_loop v (lt_wf.apply v)

unfoldable pub var_long : ℕ → List ℕ
unfolding var_loop lt_wf dec_lt
var_long v = var_loop v (lt_wf.apply v)

-- `int32(len(b))`
abbrev pub len32 {ℓ} : {A : Type ℓ} → List A → ℕ
len32 b = length b % 2 ^ 32

unfoldable pub string : List ℕ → List ℕ
unfolding var_int
string s = var_int (len32 s) ++ s

abbrev pub identifier : List ℕ → List ℕ
identifier s = string s

abbrev pub uuid : List ℕ → List ℕ
uuid u = u

-- `int64(x) << k` of a field that is not negative.
abbrev pub field : ℕ → ℕ → ℕ
field x k = x * 2 ^ k % 2 ^ 64

unfoldable pub position : ℕ → ℕ → ℕ → List ℕ
position x y z = long (
    bit_or (bit_or (field (bit_and x 0x3ffffff) 38) (field (bit_and z 0x3ffffff) 12))
      (bit_and y 0xfff))

abbrev pub raw : List ℕ → List ℕ
raw b = b

unfoldable pub byte_array : List ℕ → List ℕ
unfolding var_int
byte_array b = var_int (len32 b) ++ b

unfoldable pub bit_set : List ℕ → List ℕ
unfolding var_int
bit_set longs = var_int (len32 longs) ++ flat_map long longs
