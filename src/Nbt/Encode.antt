-- ===== src/Nbt/Encode.antt =====
-- internal/protocol/nbt/encode.go.
use gomc.Prelude.{ℕ, ◌%◌, ◌^◌, List, [], ◌++◌, length}
use mathlib.Core.List.{flat_map}
use gomc.Codec.Writer
use gomc.Nbt.{Tag, Tags, Fields, type_id, tag_end, size}
use gomc.Nbt.Mutf8.{encode_mutf8}

unfoldable pub write_string : List ℕ → List ℕ
write_string s = let b = encode_mutf8 s in Writer.u_short (length b % 2 ^ 16) ++ b

-- `w.Int(int32(len(v)))`
abbrev pub write_len : ℕ → List ℕ
write_len n = Writer.int (n % 2 ^ 32)

-- The element type as it is written: TagEnd of an empty list.
unfoldable pub written_type : ℕ → Tags → ℕ
written_type et Tags.no_elem = tag_end
written_type et (Tags.elem t ts) = et

unfoldable mutual
  pub write_payload : Tag → List ℕ
  write_payload Tag.nil = []
  write_payload (Tag.byte v) = Writer.byte v
  write_payload (Tag.short v) = Writer.short v
  write_payload (Tag.int v) = Writer.int v
  write_payload (Tag.long v) = Writer.long v
  write_payload (Tag.float v) = Writer.float v
  write_payload (Tag.double v) = Writer.double v
  write_payload (Tag.byte_array v) = write_len (length v) ++ v
  write_payload (Tag.string v) = write_string v
  write_payload (Tag.list et es) =
      Writer.u_byte (written_type et es) ++ (write_len (size es) ++ write_elems es)
  write_payload (Tag.compound fs) = write_fields fs ++ Writer.u_byte tag_end
  write_payload (Tag.int_array v) = write_len (length v) ++ flat_map Writer.int v
  write_payload (Tag.long_array v) = write_len (length v) ++ flat_map Writer.long v

  pub write_elems : Tags → List ℕ
  write_elems Tags.no_elem = []
  write_elems (Tags.elem t ts) = write_payload t ++ write_elems ts

  pub write_fields : Fields → List ℕ
  write_fields Fields.no_field = []
  write_fields (Fields.field key t fs) =
      Writer.u_byte (type_id t) ++ (write_string key ++ (write_payload t ++ write_fields fs))

-- A nil root is a lone TagEnd.
unfoldable pub write_network : Tag → List ℕ
write_network Tag.nil = Writer.u_byte tag_end
write_network t = Writer.u_byte (type_id t) ++ write_payload t

unfoldable pub write_disk : List ℕ → Tag → List ℕ
write_disk name Tag.nil = Writer.u_byte tag_end
write_disk name t = Writer.u_byte (type_id t) ++ (write_string name ++ write_payload t)
