-- ===== src/Frame/Cfb8/Register.antt =====
-- The sliding buffer of cfb8.go refines a plain shift register: one byte is dropped at the front
-- and the ciphertext byte is appended.
use gomc.Prelude.{ℕ, zero, suc, ◌+◌, ◌*◌, ◌≤◌, ◌<◌, ◌≡◌, refl, sym, ap, ◌∙◌, arith, bit_xor}
use gomc.Prelude.{List, [], ◌∷◌, ◌++◌, length, get_or, set, take, drop, Bool, ◌==◌}
use gomc.Prelude.{
  if◌then◌else◌, length-drop, length-append, length-set, take_all, take-append, take-length,
}
use mathlib.Core.Path.{ap₂}
use gomc.Prelude.{replicate, length-replicate, Bool-cases, ==_iff, inl, inr}
use gomc.Frame.Cfb8.{Cfb8, window, copy, key_byte, wrap, xor_byte, xor_key_stream, new_cfb8}
use mathlib.Core.List.{tail}
use native.Mathlib.Numerals.{add-one}

pub record Register : Type 0 where
  pub block : List ℕ → List ℕ
  pub bytes : List ℕ
  pub decrypt : Bool

unfoldable pub shift : Register → ℕ → Register × ℕ
shift g b =
    let out = bit_xor b (get_or (g.block g.bytes) 0 0) in
    let c = if g.decrypt then b else out in (record g { bytes = tail g.bytes ++ (c ∷ []) }, out)

unfoldable pub shift_all : Register → List ℕ → Register × List ℕ
shift_all g [] = (g, [])
shift_all g (b ∷ bs) = let (g', c) = shift g b in let (g'', cs) = shift_all g' bs in (g'', c ∷ cs)

abbrev pub register : Cfb8 → Register
register x = record { block = x.block; bytes = window x; decrypt = x.decrypt }

-- The register lies inside the buffer, with room for a byte behind it.
pub record IsValid (x : Cfb8) : Type 0 where
  pub positive : 0 < x.size
  pub width : length x.sr ≡ x.size * 4
  pub inside : x.sr_pos + x.size < length x.sr

take-set :
    (n : ℕ) (l : List ℕ) (c : ℕ) → n < length l → take (suc n) (set l n c) ≡ take n l ++ (c ∷ [])
take-set n [] c h = absurd (omega arith)
take-set zero (y ∷ l) c h = refl
take-set (suc n) (y ∷ l) c h = ap (λ t. y ∷ t) (take-set n l c (omega arith))

-- A byte written behind the window, and the window moved by one.
slide :
    (p n q : ℕ) (l : List ℕ) (c : ℕ)
    → p + n ≡ q
    → q < length l
    → 0 < n
    → take n (drop (suc p) (set l q c)) ≡ tail (take n (drop p l)) ++ (c ∷ [])
slide p n q [] c e h hn = absurd (omega arith)
slide p zero q (y ∷ l) c e h hn = absurd (omega arith)
slide zero (suc n) zero (y ∷ l) c e h hn = absurd (omega arith)
slide zero (suc n) (suc q) (y ∷ l) c e h hn =
    let same : q ≡ n = omega arith in rw same (take-set n l c (omega arith))
slide (suc p) (suc n) zero (y ∷ l) c e h hn = absurd (omega arith)
slide (suc p) (suc n) (suc q) (y ∷ l) c e h hn =
    slide p (suc n) q l c (omega arith) (omega arith) hn

module _ (x : Cfb8) (positive : 0 < x.size) (width : length x.sr ≡ x.size * 4) where
  rest_length : x.sr_pos + x.size ≡ length x.sr → length (drop x.sr_pos x.sr) ≡ x.size
  rest_length e = omega (arith, length-drop x.sr_pos x.sr)

  copied :
      x.sr_pos + x.size ≡ length x.sr
      → copy x.sr (drop x.sr_pos x.sr) ≡ drop x.sr_pos x.sr ++ drop x.size x.sr
  copied e =
      rw (take_all (length x.sr) (drop x.sr_pos x.sr) (omega (arith, rest_length e)), rest_length e)

  -- At the end of the buffer the register is moved to its front.
  wrap-register :
      x.sr_pos + x.size ≤ length x.sr → IsValid (wrap x) × (register (wrap x) ≡ register x)
  unfolding wrap
  wrap-register inside = elim (Bool-cases (x.sr_pos + x.size == length x.sr)) [
    | inl full ↦
        let e = (==_iff (x.sr_pos + x.size) (length x.sr)).0 full in
        rw full (
          record {
            positive = positive;
            width =
                rw (copied e, length-append (drop x.sr_pos x.sr) (drop x.size x.sr))
                  (omega (arith, rest_length e, length-drop x.size x.sr));
            inside =
                rw (copied e, length-append (drop x.sr_pos x.sr) (drop x.size x.sr))
                  (omega (arith, rest_length e, length-drop x.size x.sr));
          },
          ap (λ t. record { block = x.block; bytes = t; decrypt = x.decrypt }) (moved e),
        )
    | inr room ↦
        rw room (record { positive = positive; width = width; inside = ground (arith, room) }, refl)
  ]
    where
      moved :
          x.sr_pos + x.size ≡ length x.sr
          → take x.size (copy x.sr (drop x.sr_pos x.sr)) ≡ take x.size (drop x.sr_pos x.sr)
      moved e =
          rw (copied e, ← rest_length e)
            (take-append (drop x.sr_pos x.sr) _ ∙ sym (take-length (drop x.sr_pos x.sr)))

abbrev appended : Cfb8 → ℕ → Register
appended x c = record { block = x.block; bytes = tail (window x) ++ (c ∷ []); decrypt = x.decrypt }

written-register :
    (x : Cfb8) (c : ℕ)
    → IsValid x
    → let y : Cfb8 = record x { sr = set x.sr (x.sr_pos + x.size) c; sr_pos = x.sr_pos + 1 } in
      IsValid (wrap y) × (register (wrap y) ≡ appended x c)
written-register x c v =
    let y : Cfb8 = record x { sr = set x.sr (x.sr_pos + x.size) c; sr_pos = x.sr_pos + 1 } in
    let len : length y.sr ≡ length x.sr = length-set x.sr (x.sr_pos + x.size) c in
    let (valid, same) =
      wrap-register y v.positive (omega (arith, v.width)) (omega (arith, v.inside)) in
    (valid, same ∙ ap (λ t. record { block = x.block; bytes = t; decrypt = x.decrypt }) slid)
  where
    slid :
        take x.size (drop (x.sr_pos + 1) (set x.sr (x.sr_pos + x.size) c))
        ≡ tail (window x) ++ (c ∷ [])
    slid =
        rw (add-one x.sr_pos)
          (slide x.sr_pos x.size (x.sr_pos + x.size) x.sr c refl v.inside v.positive)

xor_byte-register :
    (x : Cfb8) (b : ℕ)
    → IsValid x
    → IsValid (xor_byte x b).0
      × (register (xor_byte x b).0 ≡ (shift (register x) b).0)
      × ((xor_byte x b).1 ≡ (shift (register x) b).1)
unfolding xor_byte shift
xor_byte-register x b v =
    let (valid, same) = written-register x (if x.decrypt then b else bit_xor b (key_byte x)) v in
    (valid, same, refl)

-- When the buffer is in order, it stays so on every input, what is given is what a plain shift
-- register gives, and the register that it holds afterwards is that one's.
pub xor_key_stream-register :
    (bs : List ℕ) (x : Cfb8)
    → IsValid x
    → IsValid (xor_key_stream x bs).0
      × (register (xor_key_stream x bs).0 ≡ (shift_all (register x) bs).0)
      × ((xor_key_stream x bs).1 ≡ (shift_all (register x) bs).1)
unfolding xor_key_stream shift_all
xor_key_stream-register [] x v = (v, refl, refl)
xor_key_stream-register (b ∷ bs) x v =
    let (valid, same, out) = xor_byte-register x b v in
    let (valid', same', outs) = xor_key_stream-register bs (xor_byte x b).0 valid in
    (
      valid',
      same' ∙ ap (λ g. (shift_all g bs).0) same,
      ap₂ (λ c cs. c ∷ cs) out (outs ∙ ap (λ g. (shift_all g bs).1) same),
    )

pub new_cfb8-IsValid :
    (block : List ℕ → List ℕ) (size : ℕ) (iv : List ℕ) (decrypt : Bool)
    → 0 < size
    → length iv ≡ size
    → IsValid (new_cfb8 block size iv decrypt)
      × (register (new_cfb8 block size iv decrypt)
          ≡ record { block = block; bytes = iv; decrypt = decrypt })
unfolding new_cfb8
new_cfb8-IsValid block size iv decrypt h e = (
  record {
    positive = h;
    width = rw copied (omega (arith, e, lengths));
    inside = rw copied (omega (arith, e, lengths));
  },
  ap (λ t. record { block = block; bytes = t; decrypt = decrypt }) first,
)
  where
    zeros : List ℕ
    zeros = replicate (size * 4) 0

    copied : copy zeros iv ≡ iv ++ drop (length iv) zeros
    copied =
        rw (take_all (length zeros) iv (rw (length-replicate {A = ℕ} (size * 4) 0) (omega arith)))

    lengths : length (iv ++ drop (length iv) zeros) ≡ size * 4
    lengths =
        length-append iv (drop (length iv) zeros)
        ∙ omega (arith, length-drop (length iv) zeros, length-replicate {A = ℕ} (size * 4) 0)

    first : take size (copy zeros iv) ≡ iv
    first = rw (copied, ← e) (take-append iv _)
