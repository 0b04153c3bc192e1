-- ===== src/Nbt/Safe.antt =====
-- Every tag is read within the input, whatever the bytes.
use gomc.Prelude.{refl, arith, ℕ, zero, suc, List, [], Option, none, some}
use gomc.Codec.Reader
use gomc.Codec.Reader.{Read, Error, ◌>>◌}
use gomc.Codec.Safe.{
  Bounded, bounded_methods, bind-Bounded, if_failed-Bounded, pure-Bounded, Grows, Grows-refl,
}
use gomc.Nbt.{Tag, Fields}
use gomc.Nbt.Decode
use gomc.Nbt.Decode.{failing}

failing-Bounded : {A : Type 0} (e : Error) (z : A) → Bounded (failing e z)
unfolding failing Reader.fail ◌>>◌ Reader.pure
failing-Bounded e z = record {
  grows = λ r v.
      elim r.err
        as (λ o.
          let p : Unit {0} × Reader.Reader = elim o [
            | none ↦ (tt, record r { err = some e })
            | some _ ↦ (tt, r)
          ] in
          Grows r p.1) [
            | none ↦ record { input = refl; forward = omega arith; bounded = v }
            | some _ ↦ Grows-refl r v
          ];
}

decoded-Bounded : (o : Option (List ℕ)) → Bounded (Decode.decoded o)
unfolding Decode.decoded
decoded-Bounded none = failing-Bounded Error.bad_mutf8 []
decoded-Bounded (some s) = pure-Bounded s

pub read_string-Bounded : Bounded Decode.read_string
unfolding Decode.read_string
read_string-Bounded = search (bounded_methods, decoded-Bounded) depth 12

counted-Bounded : (k : ℕ → Read Tag) → ((n : ℕ) → Bounded (k n)) → Bounded (Decode.counted k)
unfolding Decode.counted
counted-Bounded k h = search (bounded_methods, failing-Bounded, h) depth 12

read_elems-Bounded : (m : Read Tag) (n : ℕ) → Bounded m → Bounded (Decode.read_elems m n)
unfolding Decode.read_elems
read_elems-Bounded m zero h = pure-Bounded _
read_elems-Bounded m (suc n) h =
    bind-Bounded _ h
      λ e. if_failed-Bounded _ _ (bind-Bounded _ (read_elems-Bounded m n h) λ es. pure-Bounded _)

read_words-Bounded : (m : Read ℕ) (n : ℕ) → Bounded m → Bounded (Decode.read_words m n)
unfolding Decode.read_words
read_words-Bounded m zero h = pure-Bounded _
read_words-Bounded m (suc n) h =
    bind-Bounded _ h
      λ e. if_failed-Bounded _ _ (bind-Bounded _ (read_words-Bounded m n h) λ es. pure-Bounded _)

module _ (m : ℕ → Read Tag) (h : (typ : ℕ) → Bounded (m typ)) where
  read_fields-Bounded : (fuel : ℕ) (fs : Fields) → Bounded (Decode.read_fields m fuel fs)
  unfolding Decode.read_fields
  read_fields-Bounded zero fs = pure-Bounded fs
  read_fields-Bounded (suc fuel) fs =
      let rest : (gs : Fields) → Bounded (Decode.read_fields m fuel gs) =
        read_fields-Bounded fuel in
      search (bounded_methods, read_string-Bounded, h, rest) depth 16

  all_fields-Bounded : Bounded (Decode.all_fields m)
  unfolding Decode.all_fields
  all_fields-Bounded = record {
    grows = λ r v. (read_fields-Bounded (Decode.rounds r) Fields.no_field).grows r v;
  }

  payload_over-Bounded : (typ : ℕ) → Bounded (Decode.payload_over m typ)
  unfolding Decode.payload_over
  payload_over-Bounded typ =
      search
        (
          bounded_methods, failing-Bounded, read_string-Bounded, counted-Bounded,
          read_elems-Bounded, read_words-Bounded, all_fields-Bounded, h,
        )
        depth 30

pub read_payload-Bounded : (left typ : ℕ) → Bounded (Decode.read_payload left typ)
unfolding Decode.read_payload
read_payload-Bounded zero typ = failing-Bounded Error.too_deep Tag.nil
read_payload-Bounded (suc left) typ =
    payload_over-Bounded (Decode.read_payload left) (read_payload-Bounded left) typ

pub read_network-Bounded : Bounded Decode.read_network
unfolding Decode.read_network
read_network-Bounded = search (bounded_methods, read_payload-Bounded) depth 12
