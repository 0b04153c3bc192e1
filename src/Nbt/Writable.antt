-- ===== src/Nbt/Writable.antt =====
-- The tags that can be written, and how their parts are read back.
use gomc.Prelude.{ℕ, zero, suc, ◌%◌, ◌^◌, ◌<◌, ◌≤◌, ◌≡◌, ◌∙◌, refl, sym, ap, arith, ◌==◌}
use gomc.Prelude.{List, [], ◌∷◌, ◌++◌, length, All, false, append_assoc}
use gomc.Prelude.{length-append, append-nil}
use mathlib.Core.List.{flat_map}
use gomc.Codec.Reader
use gomc.Codec.Reader.{Reader, Read, ◌>>=◌, pure, if_failed, when◌then◌else◌, is_negative}
use gomc.Codec.Writer
use gomc.Codec.Writer.{put_big_endian}
use gomc.Codec.Reads.{Reads, at, take-Reads, pure-Reads, if_failed-Reads, when_false-Reads}
use gomc.Codec.Reads.{of_eq-Reads, bind-Reads, map-Reads}
use gomc.Codec.Numbers.{fixed-Reads}
use gomc.Nbt.{Tag, Tags, Fields, type_id, tag_end, set, size, len}
use gomc.Nbt.Mutf8.{encode_mutf8}
use gomc.Nbt.Runes.{IsText, decode_mutf8-encode_mutf8}
use gomc.Nbt.Encode.{write_string, write_len, written_type, write_payload, write_fields}
use gomc.Nbt.Decode.{decoded, read_string, counted, read_words}
use gomc.Nbt.Decode.{rounds}

-- A string that its two length bytes can count.
abbrev pub IsName : List ℕ → Type 0
IsName s = IsText s × (length (encode_mutf8 s) < 2 ^ 16)

pub read_string-Reads : (s : List ℕ) → IsName s → Reads read_string (write_string s) s
unfolding read_string write_string Reader.raw decoded
read_string-Reads s (text, short) =
    bind-Reads _ (of_eq-Reads same (fixed-Reads 2 (length (encode_mutf8 s)) short)) (
      of_eq-Reads (append-nil (encode_mutf8 s)) (
        bind-Reads _ (take-Reads (encode_mutf8 s))
          (if_failed-Reads [] (rw (decode_mutf8-encode_mutf8 s text) (pure-Reads s)))))
  where
    same :
        put_big_endian 2 (length (encode_mutf8 s))
        ≡ Writer.u_short (length (encode_mutf8 s) % 2 ^ 16)
    same = ap (put_big_endian 2) (ground arith)

pub counted-Reads :
    (k : ℕ → Read Tag) (n : ℕ) {bs : List ℕ} {t : Tag}
    → n < 2 ^ 31
    → Reads (k n) bs t
    → Reads (counted k) (write_len n ++ bs) t
unfolding counted
counted-Reads k n short h =
    bind-Reads _ (of_eq-Reads same (fixed-Reads 4 n (omega arith)))
      (if_failed-Reads _ (when_false-Reads (is_negative n) _ (ground arith) h))
  where
    same : put_big_endian 4 n ≡ write_len n
    same = ap (put_big_endian 4) (ground arith)

pub read_words-Reads :
    (w : ℕ) (ws : List ℕ)
    → All (λ v. v < 256 ^ w) ws
    → Reads (read_words (Reader.fixed w) (length ws)) (flat_map (put_big_endian w) ws) ws
unfolding read_words flat_map
read_words-Reads w [] h = pure-Reads []
read_words-Reads w (v ∷ ws) (h, hs) =
    bind-Reads _ (fixed-Reads w v h) (if_failed-Reads [] (map-Reads _ (read_words-Reads w ws hs)))

-- What a compound holds after the fields have been set one by one.
unfoldable pub absorb : Fields → Fields → Fields
absorb fs Fields.no_field = fs
absorb fs (Fields.field key t gs) = absorb (set key t fs) gs

-- A tag that fits in some levels of nesting, with numbers in range, lengths that can be counted,
-- lists all of their element type, and compounds as `Set` builds them.
unfoldable mutual
  pub CanWrite : ℕ → Tag → Type 0
  CanWrite zero t = ⊥
  CanWrite (suc left) Tag.nil = ⊥
  CanWrite (suc left) (Tag.byte v) = v < 256
  CanWrite (suc left) (Tag.short v) = v < 2 ^ 16
  CanWrite (suc left) (Tag.int v) = v < 2 ^ 32
  CanWrite (suc left) (Tag.long v) = v < 2 ^ 64
  CanWrite (suc left) (Tag.float v) = v < 2 ^ 32
  CanWrite (suc left) (Tag.double v) = v < 2 ^ 64
  CanWrite (suc left) (Tag.byte_array v) = length v < 2 ^ 31
  CanWrite (suc left) (Tag.string v) = IsName v
  CanWrite (suc left) (Tag.list et es) =
      (size es < 2 ^ 31) × ((written_type et es ≡ et) × CanWriteElems left et es)
  CanWrite (suc left) (Tag.compound fs) = (absorb Fields.no_field fs ≡ fs) × CanWriteFields left fs
  CanWrite (suc left) (Tag.int_array v) = (length v < 2 ^ 31) × All (λ w. w < 256 ^ 4) v
  CanWrite (suc left) (Tag.long_array v) = (length v < 2 ^ 31) × All (λ w. w < 256 ^ 8) v

  pub CanWriteElems : ℕ → ℕ → Tags → Type 0
  CanWriteElems left et Tags.no_elem = Unit {0}
  CanWriteElems left et (Tags.elem t ts) =
      (type_id t ≡ et) × (CanWrite left t × CanWriteElems left et ts)

  pub CanWriteFields : ℕ → Fields → Type 0
  CanWriteFields left Fields.no_field = Unit {0}
  CanWriteFields left (Fields.field key t fs) =
      IsName key × (CanWrite left t × CanWriteFields left fs)

pub CanWrite-type_id : (left : ℕ) (t : Tag) → CanWrite left t → (type_id t == tag_end) ≡ false
unfolding CanWrite type_id
CanWrite-type_id zero t h = elim h [ ]
CanWrite-type_id (suc left) Tag.nil h = elim h [ ]
CanWrite-type_id (suc left) (Tag.byte v) h = refl
CanWrite-type_id (suc left) (Tag.short v) h = refl
CanWrite-type_id (suc left) (Tag.int v) h = refl
CanWrite-type_id (suc left) (Tag.long v) h = refl
CanWrite-type_id (suc left) (Tag.float v) h = refl
CanWrite-type_id (suc left) (Tag.double v) h = refl
CanWrite-type_id (suc left) (Tag.byte_array v) h = refl
CanWrite-type_id (suc left) (Tag.string v) h = refl
CanWrite-type_id (suc left) (Tag.list et es) h = refl
CanWrite-type_id (suc left) (Tag.compound fs) h = refl
CanWrite-type_id (suc left) (Tag.int_array v) h = refl
CanWrite-type_id (suc left) (Tag.long_array v) h = refl

-- A loop over fields has a round for each byte.
len-write_fields : (fs : Fields) → len fs ≤ length (write_fields fs)
unfolding len write_payload
len-write_fields Fields.no_field = omega arith
len-write_fields (Fields.field key t fs) =
    let rest = len-write_fields fs in
    rw
      (
        length-append (write_string key) (write_payload t ++ write_fields fs),
        length-append (write_payload t) (write_fields fs),
      )
      (omega arith)

pub len-rounds :
    (fs : Fields) (before after : List ℕ)
    → len fs < rounds (at before ((write_fields fs ++ Writer.u_byte tag_end) ++ after))
len-rounds fs before after =
    let shorter = len-write_fields fs in
    rw
      (
        length-append before ((write_fields fs ++ Writer.u_byte tag_end) ++ after),
        length-append (write_fields fs ++ Writer.u_byte tag_end) after,
        length-append (write_fields fs) (Writer.u_byte tag_end),
      )
      (omega arith)

pub append_field : (b c d e : List ℕ) → (b ++ (c ++ (d ++ e))) ≡ ((b ++ (c ++ d)) ++ e)
append_field b c d e = ap (λ l. b ++ l) (sym (append_assoc c d e)) ∙ sym (append_assoc b (c ++ d) e)
