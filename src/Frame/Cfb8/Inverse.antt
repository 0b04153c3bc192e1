-- ===== src/Frame/Cfb8/Inverse.antt =====
-- Decryption undoes encryption: two streams that start from one register stay in step.
use gomc.Prelude.{ℕ, ◌<◌, ◌≡◌, refl, ap, ◌∙◌, bit_xor, All}
use gomc.Prelude.{List, [], ◌∷◌, ◌++◌, length, get_or, true, false}
use gomc.Prelude.Bits.{bit_xor_undo}
use gomc.Frame.Cfb8.{Cfb8, xor_key_stream, new_cfb8}
use gomc.Frame.Cfb8.Register.{Register, shift, shift_all, register, IsValid}
use gomc.Frame.Cfb8.Register.{xor_key_stream-register, new_cfb8-IsValid}
use mathlib.Core.List.{tail}
use mathlib.Core.Path.{ap₂}

-- The first byte of every block that the cipher gives is a byte.
abbrev pub GivesBytes : (List ℕ → List ℕ) → Type 0
GivesBytes block = (w : List ℕ) → get_or (block w) 0 0 < 256

abbrev pub encrypting : (List ℕ → List ℕ) → List ℕ → Register
encrypting block w = record { block = block; bytes = w; decrypt = false }

abbrev decrypting : (List ℕ → List ℕ) → List ℕ → Register
decrypting block w = record { block = block; bytes = w; decrypt = true }

module _ (block : List ℕ → List ℕ) (gives : GivesBytes block) where
  shift_all_undo :
      (bs w : List ℕ)
      → All (λ b. b < 256) bs
      → let (e, cs) = shift_all (encrypting block w) bs in
        (e ≡ encrypting block e.bytes)
        × (shift_all (decrypting block w) cs ≡ (decrypting block e.bytes, bs))
  unfolding shift shift_all
  shift_all_undo [] w h = (refl, refl)
  shift_all_undo (b ∷ bs) w (hb, hbs) =
      let k = get_or (block w) 0 0 in
      let (same, undone) = shift_all_undo bs (tail w ++ (bit_xor b k ∷ [])) hbs in
      (
        same,
        ap₂ (λ (p : Register × List ℕ) t. (p.0, t ∷ p.1)) undone (bit_xor_undo 8 b k hb (gives w)),
      )

-- An encrypting and a decrypting stream with one block cipher and one register.
pub record InStep (block : List ℕ → List ℕ) (e d : Cfb8) : Type 0 where
  pub encrypts : IsValid e
  pub decrypts : IsValid d
  pub bytes : List ℕ
  pub sender : register e ≡ encrypting block bytes
  pub receiver : register d ≡ decrypting block bytes

-- Two streams made from one key and one initial vector are in step.
pub new_cfb8-InStep :
    (block : List ℕ → List ℕ) (size : ℕ) (iv : List ℕ)
    → 0 < size
    → length iv ≡ size
    → InStep block (new_cfb8 block size iv false) (new_cfb8 block size iv true)
new_cfb8-InStep block size iv h e =
    let (ve, se) = new_cfb8-IsValid block size iv false h e in
    let (vd, sd) = new_cfb8-IsValid block size iv true h e in
    record { encrypts = ve; decrypts = vd; bytes = iv; sender = se; receiver = sd }

-- What a stream encrypts, a decrypting stream in step with it decrypts, and they stay in step for what
-- follows, when the block function and the input are of bytes.
pub xor_key_stream_undo :
    (block : List ℕ → List ℕ) (e d : Cfb8) (bs : List ℕ)
    → GivesBytes block
    → InStep block e d
    → All (λ b. b < 256) bs
    → let (e', cs) = xor_key_stream e bs in
      let (d', out) = xor_key_stream d cs in (out ≡ bs) × InStep block e' d'
xor_key_stream_undo block e d bs gives p h =
    let cs = (xor_key_stream e bs).1 in
    let (ve, se, oe) = xor_key_stream-register bs e p.encrypts in
    let (vd, sd, od) = xor_key_stream-register cs d p.decrypts in
    let (same, undone) = shift_all_undo block gives bs p.bytes h in
    let sent : cs ≡ (shift_all (encrypting block p.bytes) bs).1 =
      oe ∙ ap (λ g. (shift_all g bs).1) p.sender in
    let got : shift_all (register d) cs
        ≡ (decrypting block (shift_all (encrypting block p.bytes) bs).0.bytes, bs) =
      ap₂ shift_all p.receiver sent ∙ undone in
    (
      od ∙ ap (λ (t : Register × List ℕ). t.1) got,
      record {
        encrypts = ve;
        decrypts = vd;
        bytes = (shift_all (encrypting block p.bytes) bs).0.bytes;
        sender = se ∙ ap (λ g. (shift_all g bs).0) p.sender ∙ same;
        receiver = sd ∙ ap (λ (t : Register × List ℕ). t.0) got;
      },
    )
