-- ===== src/Frame/Cfb8.antt =====
-- internal/protocol/frame/cfb8.go. `block` is the Encrypt method of the cipher.Block, from a block
-- to a block. The scratch buffer `srEnc` holds nothing between two rounds and is left out.
pub mod Register
pub mod Inverse
use gomc.Prelude.{ℕ, ◌+◌, ◌-◌, ◌*◌, bit_xor, List, [], ◌∷◌, ◌++◌, length, get_or, set, take, drop}
use gomc.Prelude.{replicate, Bool, ◌==◌, if◌then◌else◌}

pub record Cfb8 : Type 0 where
  pub block : List ℕ → List ℕ
  pub size : ℕ
  pub sr : List ℕ
  pub sr_pos : ℕ
  pub decrypt : Bool

-- `copy(dst, src)`: as many elements as both have.
abbrev pub copy : List ℕ → List ℕ → List ℕ
copy dst src = take (length dst) src ++ drop (length src) dst

unfoldable pub new_cfb8 : (List ℕ → List ℕ) → ℕ → List ℕ → Bool → Cfb8
new_cfb8 block size iv decrypt = record {
  block = block;
  size = size;
  sr = copy (replicate (size * 4) 0) iv;
  sr_pos = 0;
  decrypt = decrypt;
}

-- The part of the buffer that is the shift register.
abbrev pub window : Cfb8 → List ℕ
window x = take x.size (drop x.sr_pos x.sr)

key_byte : Cfb8 → ℕ
key_byte x = get_or (x.block (window x)) 0 0

-- `if x.srPos+x.size == len(x.sr) { copy(x.sr, x.sr[x.srPos:]); x.srPos = 0 }`
wrap : Cfb8 → Cfb8
wrap x =
    if x.sr_pos + x.size == length x.sr
    then record x { sr = copy x.sr (drop x.sr_pos x.sr); sr_pos = 0 }
    else x

-- One round of the loop.
pub xor_byte : Cfb8 → ℕ → Cfb8 × ℕ
unfolding wrap key_byte
xor_byte x b =
    let out = bit_xor b (key_byte x) in
    let c = if x.decrypt then b else out in
    (wrap (record x { sr = set x.sr (x.sr_pos + x.size) c; sr_pos = x.sr_pos + 1 }), out)

unfoldable pub xor_key_stream : Cfb8 → List ℕ → Cfb8 × List ℕ
xor_key_stream x [] = (x, [])
xor_key_stream x (b ∷ bs) =
    let (x', c) = xor_byte x b in let (x'', cs) = xor_key_stream x' bs in (x'', c ∷ cs)
