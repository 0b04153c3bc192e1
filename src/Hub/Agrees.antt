-- ===== src/Hub/Agrees.antt =====
-- The channel of a player agrees with a picture of where the entities are: a client that reads it
-- takes every other entity to be where the picture has it.
use gomc.Prelude.{ℕ, ◌≡◌, ◌<◌, sym, ap, ◌∙◌, inl, inr, Bool-cases, Option, none}
use gomc.Prelude.{List, [], ◌∷◌, length, All, ltb, ◌==◌, ==_iff, lt→ltb, ltb→lt}
use gomc.Prelude.{false, if◌then◌else◌}
use mathlib.Core.Bool.{false≢true}
use gomc.Hub.{Player, enqueue, broadcast}
use gomc.Hub.Floats.{Floats}
use gomc.Hub.Move.{broadcast_except}
use gomc.Hub.View.{Place, see, heard}
use gomc.Hub.Heard.{Touches, Silent, heard-append}

-- What holds of a player whose channel has never been full. A channel with room left has dropped
-- nothing.
abbrev pub Agrees : Floats → (ℕ → Option Place) → Player → Type 0
Agrees fl f q =
    length q.out < q.capacity → (eid : ℕ) → (q.eid == eid) ≡ false → heard fl eid q.out none ≡ f eid

-- The picture `f`, changed at one entity.
abbrev pub upon : ℕ → (Option Place → Option Place) → (ℕ → Option Place) → ℕ → Option Place
upon me change f eid = if me == eid then change (f eid) else f eid

module _ (fl : Floats) where
  pub Agrees-eq :
      {f g : ℕ → Option Place} (q : Player)
      → ((eid : ℕ) → (q.eid == eid) ≡ false → f eid ≡ g eid)
      → Agrees fl f q
      → Agrees fl g q
  Agrees-eq q same h room eid other = h room eid other ∙ same eid other

  pub All-Agrees-eq :
      {f g : ℕ → Option Place} (qs : List Player)
      → ((eid : ℕ) → f eid ≡ g eid)
      → All (Agrees fl f) qs
      → All (Agrees fl g) qs
  All-Agrees-eq [] same h = tt
  All-Agrees-eq (q ∷ qs) same (h, hs) =
      (Agrees-eq q (λ eid _. same eid) h, All-Agrees-eq qs same hs)

  pub enqueue-Agrees :
      {f g : ℕ → Option Place} (b : List ℕ) (q : Player)
      → ((eid : ℕ) → (q.eid == eid) ≡ false → see fl eid b (f eid) ≡ g eid)
      → Agrees fl f q
      → Agrees fl g (enqueue b q)
  unfolding enqueue
  enqueue-Agrees {f} {g} b q seen h = elim (Bool-cases (ltb (length q.out) q.capacity)) [
    | inl e ↦ rw e (λ room eid other.
        heard-append fl eid q.out b none
        ∙ (ap (see fl eid b) (h (ltb→lt _ _ e) eid other) ∙ seen eid other))
    | inr e ↦ rw e (λ room. absurd (false≢true (sym e ∙ lt→ltb _ _ room)))
  ]

module _ (fl : Floats) (f : ℕ → Option Place) where
  upon_other :
      (me : ℕ) (c : Option Place → Option Place) (q : Player) (eid : ℕ)
      → q.eid ≡ me
      → (q.eid == eid) ≡ false
      → f eid ≡ upon me c f eid
  upon_other me c q eid same other = rw (sym same, other)

  pub broadcast-Agrees :
      (me : ℕ) (c : Option Place → Option Place) (b : List ℕ) (qs : List Player)
      → Touches fl me c b
      → All (Agrees fl f) qs
      → All (Agrees fl (upon me c f)) (broadcast b qs)
  broadcast-Agrees me c b [] seen h = tt
  broadcast-Agrees me c b (q ∷ qs) seen (h, hs) =
      (enqueue-Agrees fl b q (λ eid _. seen eid (f eid)) h, broadcast-Agrees me c b qs seen hs)

  pub broadcast-Silent-Agrees :
      (b : List ℕ) (qs : List Player)
      → Silent fl b
      → All (Agrees fl f) qs
      → All (Agrees fl f) (broadcast b qs)
  broadcast-Silent-Agrees b [] seen h = tt
  broadcast-Silent-Agrees b (q ∷ qs) seen (h, hs) =
      (enqueue-Agrees fl b q (λ eid _. seen eid (f eid)) h, broadcast-Silent-Agrees b qs seen hs)

  -- The player who is spared needs no packet: it is not told of itself.
  pub broadcast_except-Agrees :
      (me : ℕ) (c : Option Place → Option Place) (b : List ℕ) (qs : List Player)
      → Touches fl me c b
      → All (Agrees fl f) qs
      → All (Agrees fl (upon me c f)) (broadcast_except qs me b)
  unfolding broadcast_except
  broadcast_except-Agrees me c b [] seen h = tt
  broadcast_except-Agrees me c b (q ∷ qs) seen (h, hs) =
      let rest = broadcast_except-Agrees me c b qs seen hs in
      elim (Bool-cases (q.eid == me)) [
        | inl e ↦ rw e (
          Agrees-eq fl q (λ eid other. upon_other me c q eid ((==_iff q.eid me).0 e) other) h,
          rest,
        )
        | inr e ↦ rw e (enqueue-Agrees fl b q (λ eid _. seen eid (f eid)) h, rest)
      ]
