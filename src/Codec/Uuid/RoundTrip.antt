-- ===== src/Codec/Uuid/RoundTrip.antt =====
-- A formatted UUID is parsed back, in canonical form and as 32 digits, and what is parsed is a UUID.
use gomc.Prelude.{ℕ, ◌+◌, ◌*◌, ◌/◌, ◌%◌, ◌<◌, ◌≡◌, refl, sym, ap, ◌∙◌, arith, All}
use gomc.Prelude.{List, [], ◌∷◌, ◌++◌, length, take, drop, take-append-drop, drop-drop, length-drop}
use gomc.Prelude.{take-length, none, some, ◌==◌, false, Option}
use gomc.Prelude.{Bool-cases, ==_iff, inl, inr}
use gomc.Codec.Uuid.{hex_digit, hex_encode, from_hex_char, hex_byte, hex_decode, slice, dash}
use gomc.Codec.Uuid.{to_string, clean, parse_uuid}

from_hex_char-hex_digit : (d : ℕ) → d < 16 → from_hex_char (hex_digit d) ≡ some d
unfolding from_hex_char hex_digit
from_hex_char-hex_digit d h = ground arith

hex_digit-ne-dash : (d : ℕ) → d < 16 → (hex_digit d == b'-') ≡ false
unfolding hex_digit
hex_digit-ne-dash d h = ground arith

hex_decode-hex_encode : (bs : List ℕ) → All (λ b. b < 256) bs → hex_decode (hex_encode bs) ≡ some bs
unfolding hex_decode hex_encode
hex_decode-hex_encode [] h = refl
hex_decode-hex_encode (b ∷ bs) (hb, hbs) =
    rw
      (
        from_hex_char-hex_digit (b / 16) (omega arith),
        from_hex_char-hex_digit (b % 16) (omega arith),
        hex_decode-hex_encode bs hbs,
      )
      (ap (λ t. some (t ∷ bs)) (omega arith))

length-hex_encode : (bs : List ℕ) → length (hex_encode bs) ≡ length bs * 2
unfolding hex_encode
length-hex_encode [] = refl
length-hex_encode (b ∷ bs) = omega (arith, length-hex_encode bs)

hex_encode-append : (xs ys : List ℕ) → hex_encode (xs ++ ys) ≡ hex_encode xs ++ hex_encode ys
unfolding hex_encode
hex_encode-append [] ys = refl
hex_encode-append (x ∷ xs) ys =
    ap (λ t. hex_digit (x / 16) ∷ hex_digit (x % 16) ∷ t) (hex_encode-append xs ys)

clean-append : (xs ys : List ℕ) → clean (xs ++ ys) ≡ clean xs ++ clean ys
unfolding clean
clean-append [] ys = refl
clean-append (x ∷ xs) ys = ground (arith, clean-append xs ys)

clean-hex_encode : (bs : List ℕ) → All (λ b. b < 256) bs → clean (hex_encode bs) ≡ hex_encode bs
unfolding clean hex_encode
clean-hex_encode [] h = refl
clean-hex_encode (b ∷ bs) (hb, hbs) = rw (
  hex_digit-ne-dash (b / 16) (omega arith),
  hex_digit-ne-dash (b % 16) (omega arith),
  clean-hex_encode bs hbs,
)

clean-dash : (s : List ℕ) → clean (dash ++ s) ≡ clean s
unfolding clean
clean-dash s = refl

clean-nil : clean [] ≡ []
unfolding clean
clean-nil = refl

slice-drop : (n i j : ℕ) (u : List ℕ) → i + n ≡ j → take n (drop i u) ++ drop j u ≡ drop i u
slice-drop n i j u e = rw (← drop-drop i n j u e) (take-append-drop n (drop i u))

last_slice : (u : List ℕ) → length u ≡ 16 → slice 10 16 u ≡ drop 10 u
last_slice u h = rw (← rest) (take-length (drop 10 u))
  where
    rest : length (drop 10 u) ≡ 6
    rest = omega (arith, length-drop 10 u)

slices :
    (u : List ℕ)
    → length u ≡ 16
    → slice 0 4 u ++ (slice 4 6 u ++ (slice 6 8 u ++ (slice 8 10 u ++ slice 10 16 u))) ≡ u
slices u h =
    rw (last_slice u h, slice-drop 2 8 10 u refl, slice-drop 2 6 8 u refl, slice-drop 2 4 6 u refl)
      (slice-drop 4 0 4 u refl)

clean-to_string :
    (u : List ℕ) → length u ≡ 16 → All (λ b. b < 256) u → clean (to_string u) ≡ hex_encode u
unfolding to_string
clean-to_string u h bytes =
    simp (clean-append, clean-dash, clean-nil) (sym pieces) ∙ clean-hex_encode u bytes
  where
    pieces :
        clean (hex_encode u)
        ≡ clean (hex_encode (slice 0 4 u))
          ++ (clean (hex_encode (slice 4 6 u))
              ++ (clean (hex_encode (slice 6 8 u))
                  ++ (clean (hex_encode (slice 8 10 u)) ++ clean (hex_encode (slice 10 16 u)))))
    pieces =
        ap (λ t. clean (hex_encode t)) (sym (slices u h)) ∙ simp (hex_encode-append, clean-append)

-- A UUID of 16 bytes is parsed back from its canonical form.
pub parse_uuid-to_string :
    (u : List ℕ) → length u ≡ 16 → All (λ b. b < 256) u → parse_uuid (to_string u) ≡ some u
unfolding parse_uuid
parse_uuid-to_string u h bytes =
    rw (clean-to_string u h bytes, length-hex_encode u, h) (hex_decode-hex_encode u bytes)

from_hex_char-lt : (c d : ℕ) → from_hex_char c ≡ some d → d < 16
unfolding from_hex_char
from_hex_char-lt c d e = ground arith

hex_byte_inv :
    (hi lo : Option ℕ) (rest : Option (List ℕ)) {bs : List ℕ}
    → hex_byte hi lo rest ≡ some bs
    → (h l : ℕ) × (r : List ℕ) × (hi ≡ some h)
      × (lo ≡ some l)
      × (rest ≡ some r)
      × (bs ≡ (h * 16 + l) ∷ r)
hex_byte_inv (some h) (some l) (some r) e = (h, l, r, refl, refl, refl, cc)
hex_byte_inv (some h) (some l) none e = cc
hex_byte_inv (some h) none rest e = cc
hex_byte_inv none lo rest e = cc

hex_decode_shape :
    (s bs : List ℕ) → hex_decode s ≡ some bs → All (λ b. b < 256) bs × (length bs * 2 ≡ length s)
unfolding hex_decode
hex_decode_shape [] [] e = (tt, refl)
hex_decode_shape [] (b ∷ bs) e = cc
hex_decode_shape (h ∷ []) bs e = cc
hex_decode_shape (h ∷ l ∷ s) bs e =
    let (hi, lo, r, eh, el, er, eb) =
      hex_byte_inv (from_hex_char h) (from_hex_char l) (hex_decode s) e in
    let (bytes, len) = hex_decode_shape s r er in
    rw eb ((omega (arith, from_hex_char-lt h hi eh, from_hex_char-lt l lo el), bytes), omega arith)

-- Whatever is parsed is a UUID: 16 bytes.
pub parse_uuid_shape :
    (s u : List ℕ) → parse_uuid s ≡ some u → All (λ b. b < 256) u × (length u ≡ 16)
unfolding parse_uuid
parse_uuid_shape s u e = elim (Bool-cases (length (clean s) == 32)) [
  | inl ok ↦
      let (bytes, len) = hex_decode_shape (clean s) u (rw ok at e) in
      (bytes, omega (arith, (==_iff (length (clean s)) 32).0 ok))
  | inr bad ↦ cc (rw bad at e)
]
