-- ===== src/Nbt/Decode.antt =====
-- internal/protocol/nbt/decode.go. An error is the Reader's; the capacities that are allocated
-- beforehand are left out.
use gomc.Prelude.{ℕ, zero, suc, ◌+◌, ◌-◌, ◌==◌, List, [], ◌∷◌, length, pos, Option, none, some}
use gomc.Codec.Reader
use gomc.Codec.Reader.{
  Reader, Read, Error, ◌>>=◌, ◌>>◌, pure, if_failed, when◌then◌else◌, is_negative,
}
use gomc.Codec.Reader.{unless_nil, set_error}
use gomc.Nbt.{Tag, Tags, Fields, tag_end, set}
use gomc.Nbt.Mutf8.{decode_mutf8}

-- How deep a tag may be nested, and the number of levels that this makes.
abbrev pub max_depth : ℕ
max_depth = 512

abbrev pub levels : ℕ
levels = max_depth + 1

-- The bytes of a slice, none of a nil one.
abbrev pub bytes_of : Option (List ℕ) → List ℕ
bytes_of o = elim o [ none ↦ [] | some b ↦ b ]

-- `r.Fail(e); return z`
unfoldable pub failing : {A : Type 0} → Error → A → Read A
failing e z = Reader.fail e >> pure z

unfoldable pub decoded : Option (List ℕ) → Read (List ℕ)
decoded none = failing Error.bad_mutf8 []
decoded (some s) = pure s

unfoldable pub read_string : Read (List ℕ)
read_string = do
  n ← Reader.u_short
  b ← Reader.raw (pos n)
  if_failed [] (decoded (decode_mutf8 (bytes_of b)))

-- A length and what follows, for a length that is not negative.
unfoldable pub counted : (ℕ → Read Tag) → Read Tag
counted k = do
  n ← Reader.int
  if_failed Tag.nil (when is_negative n then failing Error.neg_len Tag.nil else k n)

unfoldable pub read_elems : Read Tag → ℕ → Read Tags
read_elems m zero = pure Tags.no_elem
read_elems m (suc n) = do
  e ← m
  if_failed Tags.no_elem (do es ← read_elems m n; pure (Tags.elem e es))

-- The loop of an IntArray and of a LongArray.
unfoldable pub read_words : Read ℕ → ℕ → Read (List ℕ)
read_words m zero = pure []
read_words m (suc n) = do w ← m; if_failed [] (do ws ← read_words m n; pure (w ∷ ws))

-- The loop of a compound, over the fields that come before TagEnd.
unfoldable pub read_fields : (ℕ → Read Tag) → ℕ → Fields → Read Fields
read_fields m zero fs = pure fs
read_fields m (suc fuel) fs = do
  ct ← Reader.u_byte
  if_failed Fields.no_field (
      when ct == tag_end then pure fs else (do
        name ← read_string
        t ← m ct
        if_failed Fields.no_field (read_fields m fuel (set name t fs))))

-- Each field takes a byte at least: a round for each byte that is left, and one.
abbrev pub rounds : Reader → ℕ
rounds r = suc (length r.input - r.pos)

unfoldable pub all_fields : (ℕ → Read Tag) → Read Fields
all_fields m r = read_fields m (rounds r) Fields.no_field r

-- The payload of a type, where the payloads one level down are `m`'s.
unfoldable pub payload_over : (ℕ → Read Tag) → ℕ → Read Tag
payload_over m typ =
    when typ == 1
    then (do v ← Reader.byte; pure (Tag.byte v))
    else when typ == 2
    then (do v ← Reader.short; pure (Tag.short v))
    else when typ == 3
    then (do v ← Reader.int; pure (Tag.int v))
    else when typ == 4
    then (do v ← Reader.long; pure (Tag.long v))
    else when typ == 5
    then (do v ← Reader.float; pure (Tag.float v))
    else when typ == 6
    then (do v ← Reader.double; pure (Tag.double v))
    else when typ == 7
    then counted (λ n. do b ← Reader.raw (pos n); pure (Tag.byte_array (bytes_of b)))
    else when typ == 8
    then (do s ← read_string; pure (Tag.string s))
    else when typ == 9
    then (do
      et ← Reader.u_byte
      counted λ n. do es ← read_elems (m et) n; if_failed Tag.nil (pure (Tag.list et es)))
    else when typ == 10
    then (do fs ← all_fields m; if_failed Tag.nil (pure (Tag.compound fs)))
    else when typ == 11
    then counted (λ n. do ws ← read_words Reader.int n; if_failed Tag.nil (pure (Tag.int_array ws)))
    else when typ == 12
    then counted
        (λ n. do ws ← read_words Reader.long n; if_failed Tag.nil (pure (Tag.long_array ws)))
    else failing (Error.unknown_tag typ) Tag.nil

-- readPayload, with the number of levels that are left: at depth `d`, `levels - d`.
unfoldable pub read_payload : ℕ → ℕ → Read Tag
read_payload zero typ = failing Error.too_deep Tag.nil
read_payload (suc left) typ = let inner = read_payload left in payload_over inner typ

unfoldable pub read_network : Read Tag
read_network = do
  typ ← Reader.u_byte
  if_failed Tag.nil (when typ == tag_end then pure Tag.nil else read_payload levels typ)

unfoldable pub read_disk : Read (List ℕ × Tag)
read_disk = do
  typ ← Reader.u_byte
  if_failed ([], Tag.nil)
      (when typ == tag_end
        then pure ([], Tag.nil)
        else (do name ← read_string; t ← read_payload levels typ; pure (name, t)))
