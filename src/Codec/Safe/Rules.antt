-- ===== src/Codec/Safe/Rules.antt =====
-- `Safe`, and its rules for the sequencing of reads.
use gomc.Prelude.{◌≤◌, ◌≡◌, refl, sym, ◌∙◌, arith, some, none, length, Bool, true, false}
use gomc.Prelude.{ℕ, List, Option, ap}
use gomc.Codec.Reader.{Reader, Read, Error, ◌>>=◌, pure, if_failed, set_error}
use gomc.Codec.Reader.{when◌then◌else◌, unless_nil}
use mathlib.Core.Path.{subst}

abbrev pub IsValid : Reader → Type 0
IsValid r = r.pos ≤ length r.input

pub record Grows (r r' : Reader) : Type 0 where
  pub input : r'.input ≡ r.input
  pub forward : r.pos ≤ r'.pos
  pub bounded : r'.pos ≤ length r.input

pub record Bounded {A : Type 0} (m : Read A) : Type 0 where
  pub grows : (r : Reader) → IsValid r → Grows r (m r).1

pub record Sticky {A : Type 0} (m : Read A) : Type 0 where
  pub sticky : (r : Reader) {e : Error} → r.err ≡ some e → (m r).1 ≡ r

pub Grows-refl : (r : Reader) → IsValid r → Grows r r
Grows-refl r v = record { input = refl; forward = omega arith; bounded = v }

Grows-IsValid : {r r' : Reader} → Grows r r' → IsValid r'
Grows-IsValid {r} {r'} g = subst (λ t. r'.pos ≤ length t) (sym g.input) g.bounded

Grows-trans : {r s t : Reader} → Grows r s → Grows s t → Grows r t
Grows-trans {r} {s} {t} g h = record {
  input = h.input ∙ g.input;
  forward = omega (arith, g.forward, h.forward);
  bounded = subst (λ l. t.pos ≤ length l) g.input h.bounded;
}

module _ {A : Type 0} where
  pub pure-Bounded : (a : A) → Bounded (pure a)
  unfolding pure
  pure-Bounded a = record { grows = Grows-refl }

  pub pure-Sticky : (a : A) → Sticky (pure a)
  unfolding pure
  pure-Sticky a = record { sticky = λ r h. refl }

  pub set_error-Bounded : (e : Error) (a : A) → Bounded (set_error e a)
  unfolding set_error
  set_error-Bounded e a = record {
    grows = λ r v. record { input = refl; forward = omega arith; bounded = v };
  }

  pub when-Bounded :
      (b : Bool) (m k : Read A) → Bounded m → Bounded k → Bounded (when b then m else k)
  unfolding when◌then◌else◌
  when-Bounded true m k hm hk = record { grows = hm.grows }
  when-Bounded false m k hm hk = record { grows = hk.grows }

  pub when-Sticky : (b : Bool) (m k : Read A) → Sticky m → Sticky k → Sticky (when b then m else k)
  unfolding when◌then◌else◌
  when-Sticky true m k hm hk = record { sticky = hm.sticky }
  when-Sticky false m k hm hk = record { sticky = hk.sticky }

  pub unless_nil-Bounded :
      (a : A) (k : List ℕ → Read A) (b : Option (List ℕ))
      → ((bytes : List ℕ) → Bounded (k bytes))
      → Bounded (unless_nil a k b)
  unfolding unless_nil
  unless_nil-Bounded a k none h = pure-Bounded a
  unless_nil-Bounded a k (some bytes) h = h bytes

  pub if_failed-Bounded : (z : A) (m : Read A) → Bounded m → Bounded (if_failed z m)
  unfolding if_failed
  if_failed-Bounded z m h = record { grows = grows }
    where
      grows : (r : Reader) → IsValid r → Grows r (if_failed z m r).1
      grows r v =
          elim r.err
            as (λ o. let p : A × Reader = elim o [ none ↦ m r | some e ↦ (z, r) ] in Grows r p.1) [
              | none ↦ h.grows r v
              | some e ↦ Grows-refl r v
            ]

  pub if_failed-some :
      (z : A) (m : Read A) (r : Reader) {e : Error} → r.err ≡ some e → if_failed z m r ≡ (z, r)
  unfolding if_failed
  if_failed-some z m r h = rw h

  pub if_failed-Sticky : (z : A) (m : Read A) → Sticky (if_failed z m)
  if_failed-Sticky z m = record {
    sticky = λ r h. ap (λ (t : A × Reader). t.1) (if_failed-some z m r h);
  }

module _ {A B : Type 0} {m : Read A} where
  pub bind-Bounded : (f : A → Read B) → Bounded m → ((a : A) → Bounded (f a)) → Bounded (m >>= f)
  unfolding ◌>>=◌
  bind-Bounded f first rest = record { grows = grows }
    where
      grows : (r : Reader) → IsValid r → Grows r ((m >>= f) r).1
      grows r v =
          let g = first.grows r v in Grows-trans g ((rest (m r).0).grows (m r).1 (Grows-IsValid g))

  pub bind-Sticky : (f : A → Read B) → Sticky m → ((a : A) → Sticky (f a)) → Sticky (m >>= f)
  unfolding ◌>>=◌
  bind-Sticky f first rest = record { sticky = sticky }
    where
      sticky : (r : Reader) {e : Error} → r.err ≡ some e → ((m >>= f) r).1 ≡ r
      sticky r {e} h =
          let p = first.sticky r h in
          (rest (m r).0).sticky (m r).1 (subst (λ s. s.err ≡ some e) (sym p) h) ∙ p

pub ruleset bounded_rules = (
  pure-Bounded, set_error-Bounded, when-Bounded, unless_nil-Bounded, if_failed-Bounded,
  bind-Bounded,
)

pub ruleset sticky_rules = (pure-Sticky, if_failed-Sticky, when-Sticky, bind-Sticky)
