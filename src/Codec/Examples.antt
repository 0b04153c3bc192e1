-- ===== src/Codec/Examples.antt =====
-- Concrete runs of package codec, after codec_test.go, and the theorems at concrete inputs.
use gomc.Prelude.{ℕ, ◌-◌, ◌^◌, ◌≡◌, refl, arith, List, [], ◌∷◌}
use gomc.Prelude.{some}
use gomc.Codec.Reader
use gomc.Codec.Writer
use gomc.Codec.Reader.{Reader}
use gomc.Codec.Reads.{Reads}
use gomc.Codec.VarInt.{var_int-Reads, var_long-Reads}
use gomc.Codec.Compound.{string-Reads, position-Reads}
use gomc.Codec.Uuid
use gomc.Codec.Uuid.RoundTrip.{parse_uuid-to_string}

var_int_300 : Writer.var_int 300 ≡ 0xac ∷ 0x02 ∷ []
unfolding Writer.var_int
var_int_300 = refl

-- -1 takes the full five bytes.
var_int_minus_one : Writer.var_int 0xffff_ffff ≡ 0xff ∷ 0xff ∷ 0xff ∷ 0xff ∷ 0x0f ∷ []
unfolding Writer.var_int
var_int_minus_one = refl

overlong : List ℕ
overlong = 0x80 ∷ 0x80 ∷ 0x80 ∷ 0x80 ∷ 0x80 ∷ 0x00 ∷ []

overlong_fails : (Reader.var_int (Reader.new_reader overlong)).1.err ≡ some Reader.var_int_too_long
unfolding Reader.var_int Reader.var_loop Reader.◌>>=◌ Reader.take Reader.if_failed Reader.unless_nil
    Reader.when◌then◌else◌ Reader.pure Reader.set_error Reader.new_reader overlong
overlong_fails = refl

hello : List ℕ
hello = b'h' ∷ b'i' ∷ 0xc3 ∷ 0xa9 ∷ []

var_int-Reads_example : Reads Reader.var_int (Writer.var_int 300) 300
var_int-Reads_example = var_int-Reads 300 (omega arith)

var_long-Reads_example : Reads Reader.var_long (Writer.var_long (2 ^ 64 - 1)) (2 ^ 64 - 1)
var_long-Reads_example = var_long-Reads (2 ^ 64 - 1) (omega arith)

string-Reads_example : Reads (Reader.string 16) (Writer.string hello) hello
unfolding hello
string-Reads_example =
    string-Reads 16 hello (unfold gomc.Codec.Utf8.valid in refl) (omega arith) (omega arith)

-- (-5, -60, 33554431)
position-Reads_example :
    Reads Reader.position
      (Writer.position (2 ^ 32 - 5) (2 ^ 32 - 60) 33554431)
      (2 ^ 32 - 5, 2 ^ 32 - 60, 33554431)
position-Reads_example =
    position-Reads (2 ^ 32 - 5) (2 ^ 32 - 60) 33554431 (omega arith) (omega arith) (omega arith)

abbrev notch : List ℕ
notch =
    0x06 ∷ 0x9a ∷ 0x79 ∷ 0xf4 ∷ 0x44 ∷ 0xe9 ∷ 0x47 ∷ 0x26 ∷ 0xa5 ∷ 0xbe ∷ 0xfc ∷ 0xa9 ∷ 0x0e ∷ 0x38
    ∷ 0xaa ∷ 0xf5 ∷ []

parse_uuid-to_string_example : Uuid.parse_uuid (Uuid.to_string notch) ≡ some notch
parse_uuid-to_string_example = parse_uuid-to_string notch refl (omega arith)
