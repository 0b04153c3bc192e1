-- ===== src/Nbt/Examples.antt =====
-- Concrete runs of package nbt, after nbt_test.go, and the theorem at a concrete input.
use gomc.Prelude.{ℕ, ◌+◌, ◌≡◌, refl, arith, List, [], ◌∷◌, some}
use gomc.Codec.Reader.{new_reader}
use gomc.Codec.Safe.{Grows, IsValid}
use gomc.Nbt.{Tag, Tags, Fields, type_id, same_name, set, size}
use gomc.Nbt.Encode
use gomc.Nbt.Decode
use gomc.Codec.Reader
use gomc.Nbt.Mutf8.{
  encode_mutf8, decode_mutf8, utf16_encode, units_of_rune, encode_unit, units_from, first_unit,
  utf16_decode,
}
use mathlib.Core.List.{flat_map}
use gomc.Nbt.Encode.{write_network}
use gomc.Nbt.Decode.{read_network, read_fields, read_payload, rounds}
use gomc.Nbt.Writable.{CanWrite, absorb}
use gomc.Nbt.RoundTrip.{read_network-write_network}
use gomc.Nbt.Encode.{written_type}
use gomc.Codec.Reads.{Reads}
use gomc.Prelude.{inl, inr}
use gomc.Nbt.Runes.{decode_mutf8-encode_mutf8}
use gomc.Nbt.Decode.{levels}
use gomc.Nbt.Rounds.{read_network-Grows}

-- "A", NUL and a rune of two surrogates.
abbrev runes : List ℕ
runes = b'A' ∷ 0 ∷ 0x1f600 ∷ []

abbrev their_bytes : List ℕ
their_bytes = b'A' ∷ 0xc0 ∷ 0x80 ∷ 0xed ∷ 0xa0 ∷ 0xbd ∷ 0xed ∷ 0xb8 ∷ 0x80 ∷ []

encode_runes : encode_mutf8 runes ≡ their_bytes
unfolding encode_mutf8 flat_map utf16_encode units_of_rune encode_unit
encode_runes = refl

decode_runes : decode_mutf8 their_bytes ≡ some runes
unfolding decode_mutf8 units_from first_unit utf16_decode
decode_runes = refl

-- A compound with a byte under "b" and a list of an int under "l".
abbrev tree : Tag
tree = Tag.compound (
    Fields.field (b'b' ∷ []) (Tag.byte 7) (
      Fields.field (b'l' ∷ []) (Tag.list 3 (Tags.elem (Tag.int 258) Tags.no_elem)) Fields.no_field))

read_tree : (read_network (new_reader (write_network tree))).0 ≡ tree
unfolding read_network write_network new_reader type_id Reader.fail Reader.fixed Reader.raw
    Reader.raw_byte Reader.take Reader.if_failed Reader.pure Reader.◌>>=◌ Reader.when◌then◌else◌
    Reader.set_error Reader.◌>>◌ Decode.all_fields Decode.counted Decode.decoded Decode.failing
    Decode.payload_over Decode.read_elems read_fields read_payload Decode.read_string
    Decode.read_words Encode.written_type Encode.write_payload Encode.write_string encode_mutf8
    flat_map utf16_encode units_of_rune encode_unit decode_mutf8 first_unit units_from utf16_decode
    same_name set size
read_tree = refl

read_network-Grows_example :
    Grows (new_reader (10 ∷ 0 ∷ [])) (read_network (new_reader (10 ∷ 0 ∷ []))).1
    × (read_fields (read_payload 1) (rounds (new_reader []) + 5) Fields.no_field (new_reader [])
        ≡ read_fields (read_payload 1) (rounds (new_reader [])) Fields.no_field (new_reader []))
read_network-Grows_example =
    read_network-Grows (new_reader (10 ∷ 0 ∷ [])) (new_reader []) 1 5 Fields.no_field at_start
      at_end
  where
    at_start : IsValid (new_reader (10 ∷ 0 ∷ []))
    at_start = unfold new_reader in omega arith

    at_end : IsValid (new_reader [])
    at_end = unfold new_reader in omega arith

read_network-write_network_example : Reads read_network (write_network tree) tree
read_network-write_network_example = read_network-write_network tree fits
  where
    fits : CanWrite levels tree
    fits =
        unfold type_id CanWrite absorb set same_name written_type size encode_mutf8 flat_map
          utf16_encode units_of_rune encode_unit in
        (
          refl,
          (
            ((inl (omega arith), tt), omega arith),
            (
              omega arith,
              (
                ((inl (omega arith), tt), omega arith),
                ((omega arith, (refl, (refl, (omega arith, tt)))), tt),
              ),
            ),
          ),
        )

decode_mutf8-encode_mutf8_example : decode_mutf8 (encode_mutf8 runes) ≡ some runes
decode_mutf8-encode_mutf8_example =
    decode_mutf8-encode_mutf8 runes
      (inl (omega arith), (inl (omega arith), (inr (omega arith, omega arith), tt)))
