-- ===== src/Codec/Ends.antt =====
-- `Ends m bs a`: with `bs` as all that is left of the input, `m` takes it and returns `a`.
use gomc.Prelude.{ℕ, ◌+◌, ◌≡◌, ap, ◌∙◌, some, none, Option, List, [], ◌++◌, length}
use gomc.Prelude.{append_assoc, append-nil, length-append}
use gomc.Codec.Reader
use gomc.Codec.Reader.{Reader, Read, ◌>>=◌, pure}
use gomc.Codec.Reads.{Reads, at}
use gomc.Codec.Compound.{remaining_bytes_rest}

pub record Ends {A : Type 0} (m : Read A) (bs : List ℕ) (a : A) : Type 0 where
  pub ends : (before : List ℕ) → m (at before bs) ≡ (a, at (before ++ bs) [])

pub bind-Ends :
    {A B : Type 0} {m : Read A} {bs : List ℕ} {a : A} (f : A → Read B) {cs : List ℕ} {b : B}
    → Reads m bs a
    → Ends (f a) cs b
    → Ends (m >>= f) (bs ++ cs) b
unfolding ◌>>=◌
bind-Ends {m} {bs} {a} f {cs} {b} first last = record {
  ends = λ before.
      rw (first.reads before cs) (last.ends (before ++ bs) ∙ rw (append_assoc before bs cs));
}

at_end :
    (before bs : List ℕ)
    → record { input = before ++ bs; pos = length before + length bs; err = none }
      ≡ at (before ++ bs) []
at_end before bs = simp (append-nil, length-append)

pub remaining_bytes-Ends :
    {A : Type 0} (f : Option (List ℕ) → A) (bs : List ℕ) {a : A}
    → f (some bs) ≡ a
    → Ends (Reader.remaining_bytes >>= λ o. pure (f o)) bs a
unfolding ◌>>=◌ pure
remaining_bytes-Ends f bs {a} e = record {
  ends = λ before. rw (remaining_bytes_rest before bs, e) (ap (λ r. (a, r)) (at_end before bs));
}
