-- ===== src/Nbt/RoundTrip.antt =====
-- A tag that is written is read back.
use gomc.Prelude.{ℕ, zero, suc, ◌<◌, ◌≡◌, ◌∙◌, refl, sym, ap, arith}
use gomc.Prelude.{[], ◌∷◌, ◌++◌, length}
use gomc.Prelude.{append-nil}
use mathlib.Core.List.{flat_map}
use mathlib.Core.Path.{subst}
use gomc.Codec.Reader
use gomc.Codec.Reader.{Reader, Read, ◌>>=◌, pure, if_failed, when◌then◌else◌, is_negative}
use gomc.Codec.Writer
use gomc.Codec.Writer.{put_big_endian}
use gomc.Codec.Reads.{Reads, at, take-Reads, pure-Reads, if_failed-Reads, when_false-Reads}
use gomc.Codec.Reads.{of_eq-Reads, bind-Reads, map-Reads}
use gomc.Codec.Numbers.{fixed-Reads, raw_byte-Reads}
use gomc.Nbt.{Tag, Tags, Fields, type_id, tag_end, set, size, len}
use gomc.Nbt.Encode.{write_string, write_len, write_payload, write_elems, write_fields}
use gomc.Nbt.Encode.{write_network}
use gomc.Nbt.Decode.{read_elems, read_fields, all_fields}
use gomc.Nbt.Decode.{payload_over, read_payload, read_network, levels, bytes_of}
use gomc.Nbt.Writable.{CanWrite, CanWriteElems, CanWriteFields, absorb, CanWrite-type_id}
use gomc.Nbt.Writable.{read_string-Reads, counted-Reads, read_words-Reads, len-rounds, append_field}

mutual
  unfolding read_payload payload_over when◌then◌else◌ CanWrite type_id write_payload Reader.raw
      all_fields read_elems size read_fields len absorb

  read_payload-Reads :
      (left : ℕ) (t : Tag)
      → CanWrite left t
      → Reads (read_payload left (type_id t)) (write_payload t) t
  read_payload-Reads zero t h = elim h [ ]
  read_payload-Reads (suc left) Tag.nil h = elim h [ ]
  read_payload-Reads (suc left) (Tag.byte v) h = map-Reads Tag.byte (raw_byte-Reads v)
  read_payload-Reads (suc left) (Tag.short v) h = map-Reads Tag.short (fixed-Reads 2 v h)
  read_payload-Reads (suc left) (Tag.int v) h = map-Reads Tag.int (fixed-Reads 4 v h)
  read_payload-Reads (suc left) (Tag.long v) h = map-Reads Tag.long (fixed-Reads 8 v h)
  read_payload-Reads (suc left) (Tag.float v) h = map-Reads Tag.float (fixed-Reads 4 v h)
  read_payload-Reads (suc left) (Tag.double v) h = map-Reads Tag.double (fixed-Reads 8 v h)
  read_payload-Reads (suc left) (Tag.byte_array v) h =
      counted-Reads _ (length v) h (map-Reads (λ b. Tag.byte_array (bytes_of b)) (take-Reads v))
  read_payload-Reads (suc left) (Tag.string v) h = map-Reads Tag.string (read_string-Reads v h)
  read_payload-Reads (suc left) (Tag.list et es) (short, (typed, hs)) =
      of_eq-Reads (ap (λ n. n ∷ (write_len (size es) ++ write_elems es)) (sym typed)) (
        bind-Reads _ (raw_byte-Reads et) (
          counted-Reads _ (size es) short (
            of_eq-Reads (append-nil (write_elems es)) (
              bind-Reads _ (read_elems-Reads left et es hs)
                (if_failed-Reads _ (pure-Reads (Tag.list et es)))))))
  read_payload-Reads (suc left) (Tag.compound fs) (built, hs) = of_eq-Reads (append-nil _) (
      bind-Reads _
        (record {
          reads = λ before after.
              (read_fields-Reads left _ fs Fields.no_field (len-rounds fs before after) hs).reads
                before after
              ∙ ap (λ gs. (gs, at (before ++ (write_fields fs ++ Writer.u_byte tag_end)) after))
                  built;
        })
        (if_failed-Reads _ (pure-Reads (Tag.compound fs))))
  read_payload-Reads (suc left) (Tag.int_array v) (short, words) =
      counted-Reads _ (length v) short (
        of_eq-Reads (append-nil (flat_map Writer.int v)) (
          bind-Reads _ (read_words-Reads 4 v words)
            (if_failed-Reads _ (pure-Reads (Tag.int_array v)))))
  read_payload-Reads (suc left) (Tag.long_array v) (short, words) =
      counted-Reads _ (length v) short (
        of_eq-Reads (append-nil (flat_map Writer.long v)) (
          bind-Reads _ (read_words-Reads 8 v words)
            (if_failed-Reads _ (pure-Reads (Tag.long_array v)))))

  read_elems-Reads :
      (left et : ℕ) (es : Tags)
      → CanWriteElems left et es
      → Reads (read_elems (read_payload left et) (size es)) (write_elems es) es
  read_elems-Reads left et Tags.no_elem h = pure-Reads _
  read_elems-Reads left et (Tags.elem t ts) (typed, (h, hs)) =
      bind-Reads _
        (subst (λ n. Reads (read_payload left n) (write_payload t) t) typed
          (read_payload-Reads left t h))
        (if_failed-Reads _ (map-Reads (Tags.elem t) (read_elems-Reads left et ts hs)))

  read_fields-Reads :
      (left fuel : ℕ) (fs acc : Fields)
      → len fs < fuel
      → CanWriteFields left fs
      → Reads
          (read_fields (read_payload left) fuel acc)
          (write_fields fs ++ Writer.u_byte tag_end)
          (absorb acc fs)
  read_fields-Reads left zero fs acc low h = absurd (omega arith)
  read_fields-Reads left (suc fuel) Fields.no_field acc low h =
      bind-Reads _ (raw_byte-Reads tag_end) (if_failed-Reads _ (pure-Reads acc))
  read_fields-Reads left (suc fuel) (Fields.field key t fs) acc low (name, (h, hs)) =
      of_eq-Reads
        (ap (λ l. type_id t ∷ l)
          (append_field (write_string key) (write_payload t) (write_fields fs)
            (Writer.u_byte tag_end)))
        (bind-Reads _ (raw_byte-Reads (type_id t)) (
          if_failed-Reads _ (
            when_false-Reads _ _ (CanWrite-type_id left t h) (
              bind-Reads _ (read_string-Reads key name) (
                bind-Reads _ (read_payload-Reads left t h) (
                  if_failed-Reads _
                    (read_fields-Reads left fuel fs (set key t acc) (omega arith) hs)))))))

write_network_root :
    (left : ℕ) (t : Tag) → CanWrite left t → write_network t ≡ (type_id t ∷ []) ++ write_payload t
unfolding write_network CanWrite type_id
write_network_root zero t h = elim h [ ]
write_network_root (suc left) Tag.nil h = elim h [ ]
write_network_root (suc left) (Tag.byte v) h = refl
write_network_root (suc left) (Tag.short v) h = refl
write_network_root (suc left) (Tag.int v) h = refl
write_network_root (suc left) (Tag.long v) h = refl
write_network_root (suc left) (Tag.float v) h = refl
write_network_root (suc left) (Tag.double v) h = refl
write_network_root (suc left) (Tag.byte_array v) h = refl
write_network_root (suc left) (Tag.string v) h = refl
write_network_root (suc left) (Tag.list et es) h = refl
write_network_root (suc left) (Tag.compound fs) h = refl
write_network_root (suc left) (Tag.int_array v) h = refl
write_network_root (suc left) (Tag.long_array v) h = refl

-- A tag that is nested at most 512 levels below its root, with numbers in range, texts of runes whose
-- modified UTF-8 has below 2^16 bytes, lengths below 2^31, lists all of their element type and of
-- TagEnd when empty, and compounds as `Set` builds them, is read back from the network form, whatever
-- follows it.
pub read_network-write_network :
    (t : Tag) → CanWrite levels t → Reads read_network (write_network t) t
unfolding read_network
read_network-write_network t h = of_eq-Reads (sym (write_network_root levels t h)) (
    bind-Reads _ (raw_byte-Reads (type_id t)) (
      if_failed-Reads _
        (when_false-Reads _ _ (CanWrite-type_id levels t h) (read_payload-Reads levels t h))))
