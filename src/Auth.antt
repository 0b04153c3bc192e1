-- ===== src/Auth.antt =====
-- internal/protocol/auth/digest.go: the server hash and the offline UUID. crypto/sha1 and crypto/md5
-- are parameters; a text is its bytes, and math/big's numbers are ℤ.
pub mod Digest
pub mod Mojang
pub mod Joined
mod Examples
use gomc.Prelude.{
  ℕ, zero, suc, ◌+◌, ◌-◌, ◌*◌, ◌/◌, ◌%◌, ◌^◌, ltb, ◌==◌, bit_and, bit_or, if◌then◌else◌,
}
use gomc.Prelude.{ℤ, pos, negsuc, List, [], ◌∷◌, ◌++◌, length, get_or, set, take}
use gomc.Codec.Reader.{big_endian}

-- A digit of base 16, in lower case.
abbrev pub hex_digit : ℕ → ℕ
hex_digit n = if ltb n 10 then n + b'0' else n - 10 + b'a'

-- The digits of a positive number, before `rest`; fuel for as many digits as there may be.
unfoldable pub hex_digits : ℕ → ℕ → List ℕ → List ℕ
hex_digits zero n rest = rest
hex_digits (suc fuel) n rest =
    let more = hex_digits fuel (n / 16) (hex_digit (n % 16) ∷ rest) in if n == 0 then rest else more

-- big.Int.Text(16) of a number below 16 ^ fuel.
unfoldable pub hex_text : ℕ → ℤ → List ℕ
hex_text fuel (pos n) = if n == 0 then b'0' ∷ [] else hex_digits fuel n []
hex_text fuel (negsuc n) = b'-' ∷ hex_digits fuel (suc n) []

-- a - b, as an integer.
abbrev pub sub_ℕ : ℕ → ℕ → ℤ
sub_ℕ a b = if ltb a b then negsuc (b - a - 1) else pos (a - b)

-- The number of a hash, in two's complement.
unfoldable pub signed_sum : List ℕ → ℤ
signed_sum sum =
    if bit_and (get_or sum 0 0) 0x80 == 0
    then pos (big_endian sum)
    else sub_ℕ (big_endian sum) (256 ^ length sum)

unfoldable pub minecraft_digest : List ℕ → List ℕ
minecraft_digest sum = hex_text (2 * length sum) (signed_sum sum)

unfoldable pub server_hash : (List ℕ → List ℕ) → List ℕ → List ℕ → List ℕ → List ℕ
server_hash sha1 server_id shared_secret public_key_der =
    minecraft_digest (sha1 (server_id ++ (shared_secret ++ public_key_der)))

-- "OfflinePlayer:"
abbrev pub offline_prefix : List ℕ
offline_prefix =
    b'O' ∷ b'f' ∷ b'f' ∷ b'l' ∷ b'i' ∷ b'n' ∷ b'e' ∷ b'P' ∷ b'l' ∷ b'a' ∷ b'y' ∷ b'e' ∷ b'r' ∷ b':'
    ∷ []

-- The version and the variant, over bytes 6 and 8.
unfoldable pub stamp : List ℕ → List ℕ
stamp u =
    let v = set u 6 (bit_or (bit_and (get_or u 6 0) 0x0f) 0x30) in
    set v 8 (bit_or (bit_and (get_or v 8 0) 0x3f) 0x80)

-- `md5` gives 16 bytes, which fill the UUID.
unfoldable pub offline_uuid : (List ℕ → List ℕ) → List ℕ → List ℕ
offline_uuid md5 name = stamp (take 16 (md5 (offline_prefix ++ name)))
