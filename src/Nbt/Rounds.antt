-- ===== src/Nbt/Rounds.antt =====
-- The rounds of the loop over a compound's fields are enough, and tags are read within the input.
use gomc.Prelude.{ℕ, zero, suc, ◌+◌, ◌-◌, ◌<◌, ◌≤◌, ◌≡◌, ◌∙◌, refl, sym, ap, arith, length, ltb}
use gomc.Prelude.{
  Bool, true, false, Option, none, some, inl, inr, Bool-cases, Option-cases, ◌==◌, if◌then◌else◌,
}
use mathlib.Core.Path.{subst}
use gomc.Codec.Reader
use gomc.Codec.Reader.{Reader, Read, ◌>>=◌, pure, if_failed, when◌then◌else◌, raw_byte, take}
use gomc.Codec.Safe.{Bounded, Grows, IsValid, bind-Bounded}
use gomc.Nbt.{Tag, Fields, tag_end}
use gomc.Nbt.Decode.{read_fields, rounds, read_payload, read_string, read_network}
use gomc.Nbt.Safe.{read_network-Bounded, read_payload-Bounded, read_string-Bounded}

if_failed_agree :
    {A : Type 0} (z : A) (k l : Read A) (r : Reader)
    → (r.err ≡ none → k r ≡ l r)
    → if_failed z k r ≡ if_failed z l r
unfolding if_failed
if_failed_agree z k l r h = go r.err refl
  where
    go :
        (o : Option Reader.Error)
        → r.err ≡ o
        → elim o [ none ↦ k r | some e ↦ (z, r) ] ≡ elim o [ none ↦ l r | some e ↦ (z, r) ]
    go none e = h e
    go (some f) e = refl

when_agree :
    {A : Type 0} (b : Bool) (m k l : Read A) (r : Reader)
    → k r ≡ l r
    → (when b then m else k) r ≡ (when b then m else l) r
unfolding when◌then◌else◌
when_agree true m k l r h = refl
when_agree false m k l r h = h

-- The reader after one byte, of whether it has failed and whether the input ends.
abbrev after_byte : Option Reader.Error → Bool → Reader → Reader
after_byte o ends r = elim o [
  | none ↦ if ends then record r { err = some Reader.truncated } else record r { pos = r.pos + 1 }
  | some e ↦ r
]

abbrev Moves : Reader → Reader → Type 0
Moves r r' = (r'.pos ≡ r.pos + 1) × ((r'.input ≡ r.input) × (r.pos + 1 ≤ length r.input))

after_byte-Moves :
    (o : Option Reader.Error) (b : Bool) (r : Reader)
    → r.err ≡ o
    → ltb (length r.input) (r.pos + 1) ≡ b
    → (after_byte o b r).err ≡ none
    → Moves r (after_byte o b r)
after_byte-Moves none true r failed ends h = cc
after_byte-Moves none false r failed ends h = (refl, (refl, ground arith))
after_byte-Moves (some e) b r failed ends h = cc

raw_byte_after :
    (r : Reader) → after_byte r.err (ltb (length r.input) (r.pos + 1)) r ≡ (raw_byte r).1
unfolding raw_byte take ◌>>=◌ pure if_failed Reader.set_error
raw_byte_after r = elim (Option-cases r.err) [
  | inr (x, e) ↦
      rw (e, if_failed) (ap (λ o. record { input = r.input; pos = r.pos; err = o }) (sym e))
  | inl e ↦ elim (Bool-cases (ltb (length r.input) (r.pos + 1))) [
    | inl f ↦ rw (e, f, if_failed) refl
    | inr f ↦
        rw (e, f, if_failed)
          (ap (λ o. record { input = r.input; pos = r.pos + 1; err = o }) (sym e))
  ]
]

-- A byte that is read moves the offset, within the input.
raw_byte-Moves : (r : Reader) → (raw_byte r).1.err ≡ none → Moves r (raw_byte r).1
raw_byte-Moves r h = subst (Moves r) (raw_byte_after r) (
    after_byte-Moves r.err (ltb (length r.input) (r.pos + 1)) r refl refl
      (ap (λ (t : Reader). t.err) (raw_byte_after r) ∙ h))

-- One more round changes nothing, where there is a round for each byte left and one.
module _ (m : ℕ → Read Tag) (h : (typ : ℕ) → Bounded (m typ)) where
  field_head : (ct : ℕ) → Bounded (read_string >>= λ name. m ct)
  field_head ct = bind-Bounded _ read_string-Bounded λ name. h ct

  -- The reader after the name and the tag of a field.
  abbrev field_tag : Reader → Reader
  field_tag r = (m (raw_byte r).0 (read_string (raw_byte r).1).1).1

  -- A field leaves fewer bytes.
  field_tag-shrinks :
      (r : Reader)
      → (raw_byte r).1.err ≡ none
      → IsValid (field_tag r)
        × (length (field_tag r).input - (field_tag r).pos < length r.input - r.pos)
  unfolding ◌>>=◌
  field_tag-shrinks r fine =
      let moved = raw_byte-Moves r fine in
      let same : length (raw_byte r).1.input ≡ length r.input = ap length moved.1.0 in
      let grown =
        (field_head (raw_byte r).0).grows (raw_byte r).1 (omega (arith, moved.0, moved.1.1)) in
      let same' : length (field_tag r).input ≡ length (raw_byte r).1.input =
        ap length grown.input in
      (
        omega (arith, grown.bounded),
        omega (arith, moved.0, moved.1.1, grown.forward, grown.bounded),
      )

  read_fields_more :
      (fuel : ℕ) (fs : Fields) (r : Reader)
      → IsValid r
      → length r.input - r.pos < fuel
      → read_fields m fuel fs r ≡ read_fields m (suc fuel) fs r
  unfolding read_fields ◌>>=◌
  read_fields_more zero fs r v low = absurd (omega arith)
  read_fields_more (suc fuel) fs r v low =
      if_failed_agree Fields.no_field _ _ (raw_byte r).1 λ fine.
        when_agree ((raw_byte r).0 == tag_end) _ _ _ (raw_byte r).1 (
          if_failed_agree Fields.no_field _ _ _ λ fine'.
            let shrunk = field_tag-shrinks r fine in
            read_fields_more fuel _ (field_tag r) shrunk.0 (omega (arith, shrunk.1)))

  read_fields_enough :
      (more : ℕ) (fs : Fields) (r : Reader)
      → IsValid r
      → read_fields m (rounds r + more) fs r ≡ read_fields m (rounds r) fs r
  read_fields_enough zero fs r v =
      let none_more : rounds r + 0 ≡ rounds r = omega arith in
      ap (λ n. read_fields m n fs r) none_more
  read_fields_enough (suc more) fs r v =
      let one_more : rounds r + suc more ≡ suc (rounds r + more) = omega arith in
      ap (λ n. read_fields m n fs r) one_more
      ∙ sym (read_fields_more (rounds r + more) fs r v (omega arith))
      ∙ read_fields_enough more fs r v

-- From any offset within any bytes, reading a tag of the network form leaves the input as it is,
-- never moves the offset back and keeps it within the input; and at every level of nesting, the
-- rounds that the loop over a compound's fields is given are enough: more give the same.
pub read_network-Grows :
    (r s : Reader) (left more : ℕ) (fs : Fields)
    → IsValid r
    → IsValid s
    → Grows r (read_network r).1
      × (read_fields (read_payload left) (rounds s + more) fs s
          ≡ read_fields (read_payload left) (rounds s) fs s)
read_network-Grows r s left more fs v w = (
  read_network-Bounded.grows r v,
  read_fields_enough (read_payload left) (read_payload-Bounded left) more fs s w,
)
