-- ===== src/Codec/Uuid.antt =====
-- internal/protocol/codec/uuid.go, with what it uses of encoding/hex. A UUID is the list of its 16
-- bytes, a string the list of its bytes. The two errors of ParseUUID are `none`.
pub mod RoundTrip
use gomc.Prelude.{ℕ, ◌+◌, ◌-◌, ◌*◌, ◌/◌, ◌%◌, List, [], ◌∷◌, ◌++◌, length, take, drop, replicate}
use gomc.Prelude.{Bool, true, false, ◌&&◌, ltb, leb, ◌==◌, not, if◌then◌else◌, Option, none, some}

hex_digit : ℕ → ℕ
hex_digit d = if ltb d 10 then b'0' + d else b'a' + (d - 10)

-- hex.Encode: two lower-case digits a byte.
hex_encode : List ℕ → List ℕ
hex_encode [] = []
hex_encode (b ∷ bs) = hex_digit (b / 16) ∷ hex_digit (b % 16) ∷ hex_encode bs

from_hex_char : ℕ → Option ℕ
from_hex_char c =
    if leb b'0' c && leb c b'9'
    then some (c - b'0')
    else if leb b'a' c && leb c b'f'
    then some (c - b'a' + 10)
    else if leb b'A' c && leb c b'F'
    then some (c - b'A' + 10)
    else none

abbrev hex_byte : Option ℕ → Option ℕ → Option (List ℕ) → Option (List ℕ)
hex_byte (some hi) (some lo) (some bs) = some ((hi * 16 + lo) ∷ bs)
hex_byte _ _ _ = none

-- hex.Decode, which fails at the first byte that is no digit.
hex_decode : List ℕ → Option (List ℕ)
hex_decode [] = some []
hex_decode (h ∷ []) = none
hex_decode (h ∷ l ∷ s) = hex_byte (from_hex_char h) (from_hex_char l) (hex_decode s)

-- `u[i:j]`
abbrev slice : ℕ → ℕ → List ℕ → List ℕ
slice i j u = take (j - i) (drop i u)

abbrev dash : List ℕ
dash = b'-' ∷ []

-- Canonical 8-4-4-4-12 form.
pub to_string : List ℕ → List ℕ
to_string u =
    hex_encode (slice 0 4 u)
    ++ (dash
        ++ (hex_encode (slice 4 6 u)
            ++ (dash
                ++ (hex_encode (slice 6 8 u)
                    ++ (dash
                        ++ (hex_encode (slice 8 10 u) ++ (dash ++ hex_encode (slice 10 16 u))))))))

abbrev pub zero_uuid : List ℕ
zero_uuid = replicate 16 0

-- The loop of ParseUUID that drops the dashes.
clean : List ℕ → List ℕ
clean [] = []
clean (c ∷ s) = if c == b'-' then clean s else c ∷ clean s

unfoldable pub parse_uuid : List ℕ → Option (List ℕ)
unfolding clean hex_decode from_hex_char
parse_uuid s = if length (clean s) == 32 then hex_decode (clean s) else none
