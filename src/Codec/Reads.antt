-- ===== src/Codec/Reads.antt =====
-- `Reads m bs a`: with `bs` next in the input, `m` takes exactly these bytes and returns `a`. The
-- relation composes along a sequence of reads.
use gomc.Prelude.{ℕ, ◌+◌, ◌≡◌, ap, ◌∙◌, arith, some, none, pos, le→ltb}
use gomc.Prelude.{List, [], ◌++◌, length, append_assoc, append-nil}
use gomc.Prelude.{length-append, drop-append, take-append}
use gomc.Codec.Reader
use gomc.Codec.Reader.{Reader, Read, ◌>>=◌, ◌>>◌, pure, if_failed, when◌then◌else◌, unless_nil}
use gomc.Prelude.{Bool, true, false}
use mathlib.Core.Path.{subst}

-- A reader that has passed `before`, has `after` ahead, and no error.
abbrev pub at : List ℕ → List ℕ → Reader
at before after = record { input = before ++ after; pos = length before; err = none }

pub record Reads {A : Type 0} (m : Read A) (bs : List ℕ) (a : A) : Type 0 where
  pub reads : (before after : List ℕ) → m (at before (bs ++ after)) ≡ (a, at (before ++ bs) after)

at_after :
    (before bs after : List ℕ)
    → record { input = before ++ (bs ++ after); pos = length before + length bs; err = none }
      ≡ at (before ++ bs) after
at_after before bs after = simp (append_assoc, length-append)

pub take-Reads : (bs : List ℕ) → Reads (Reader.take (pos (length bs))) bs (some bs)
unfolding Reader.take Reader.if_failed
take-Reads bs = record { reads = go }
  where
    go :
        (before after : List ℕ)
        → Reader.take (pos (length bs)) (at before (bs ++ after))
          ≡ (some bs, at (before ++ bs) after)
    go before after =
        rw
          (
            le→ltb (length (before ++ (bs ++ after))) (length before + length bs)
                (rw (length-append before (bs ++ after), length-append bs after) (omega arith)),
            drop-append before (bs ++ after),
            take-append bs after,
          )
          (ap (λ r. (some bs, r)) (at_after before bs after))

pub pure-Reads : {A : Type 0} (a : A) → Reads (pure a) [] a
unfolding pure
pure-Reads a = record { reads = λ before after. rw append-nil }

module _ {A : Type 0} {m : Read A} {bs : List ℕ} {a : A} where
  pub if_failed-Reads : (z : A) → Reads m bs a → Reads (if_failed z m) bs a
  unfolding if_failed
  if_failed-Reads z h = record { reads = h.reads }

  pub when_true-Reads :
      (b : Bool) (k : Read A) → b ≡ true → Reads m bs a → Reads (when b then m else k) bs a
  unfolding when◌then◌else◌
  when_true-Reads b k e h = rw (e, when◌then◌else◌) (record { reads = h.reads })

  pub when_false-Reads :
      (b : Bool) (k : Read A) → b ≡ false → Reads m bs a → Reads (when b then k else m) bs a
  unfolding when◌then◌else◌
  when_false-Reads b k e h = rw (e, when◌then◌else◌) (record { reads = h.reads })

  pub result_eq-Reads : {b : A} → a ≡ b → Reads m bs a → Reads m bs b
  result_eq-Reads e h = subst (λ t. Reads m bs t) e h

  pub of_eq-Reads : {cs : List ℕ} → bs ≡ cs → Reads m bs a → Reads m cs a
  of_eq-Reads e h = subst (λ t. Reads m t a) e h

module _ {A B : Type 0} {m : Read A} {bs : List ℕ} {a : A} where
  pub bind-Reads :
      (f : A → Read B) {cs : List ℕ} {b : B}
      → Reads m bs a
      → Reads (f a) cs b
      → Reads (m >>= f) (bs ++ cs) b
  unfolding ◌>>=◌
  bind-Reads f {cs} {b} first then_ = record { reads = go }
    where
      go :
          (before after : List ℕ)
          → (m >>= f) (at before ((bs ++ cs) ++ after)) ≡ (b, at (before ++ (bs ++ cs)) after)
      go before after =
          rw (append_assoc bs cs after, first.reads before (cs ++ after))
            (then_.reads (before ++ bs) after ∙ rw (append_assoc before bs cs))

  -- The last read of a sequence.
  pub map-Reads : (f : A → B) → Reads m bs a → Reads (m >>= λ x. pure (f x)) bs (f a)
  unfolding ◌>>=◌ pure
  map-Reads f first = record { reads = λ before after. rw (first.reads before after) }

module _ {B : Type 0} {m : Read (Unit {0})} {k : Read B} {bs cs : List ℕ} {b : B} where
  pub then-Reads : Reads m bs tt → Reads k cs b → Reads (m >> k) (bs ++ cs) b
  unfolding ◌>>◌
  then-Reads first last = record { reads = go }
    where
      go :
          (before after : List ℕ)
          → (m >> k) (at before ((bs ++ cs) ++ after)) ≡ (b, at (before ++ (bs ++ cs)) after)
      go before after =
          rw (append_assoc bs cs after, first.reads before (cs ++ after))
            (last.reads (before ++ bs) after ∙ rw (append_assoc before bs cs))

-- A `take` of what is there, and the use of it.
pub take_bind-Reads :
    {A : Type 0} (bs : List ℕ) (z : A) (k : List ℕ → Read A) {cs : List ℕ} {a : A}
    → Reads (k bs) cs a
    → Reads (Reader.take (pos (length bs)) >>= unless_nil z k) (bs ++ cs) a
unfolding unless_nil
take_bind-Reads bs z k h = bind-Reads (unless_nil z k) (take-Reads bs) h
