-- ===== src/Hub/Put.antt =====
-- The registry when the fields of one player change, and the newcomer who is told of all players.
use gomc.Prelude.{ℕ, ◌≡◌, refl, sym, ap, ◌∙◌, inl, inr, Bool-cases, none, some}
use gomc.Prelude.{List, [], ◌∷◌, All, ◌==◌, ==_iff, false}
use gomc.Prelude.{if◌then◌else◌, arith}
use mathlib.Core.Option.{none-ne-some, some-injective}
use mathlib.Core.Path.{subst}
use gomc.Hub.{Player, lookup, tell_spawns, spawn_packet}
use gomc.Hub.Registry.{enqueue-eid}
use gomc.Hub.Move.{put}
use gomc.Hub.View.{Place, place, known}
use gomc.Hub.Heard.{IsPlaced}
use gomc.Hub.Known.{Distinct, known_cons, enqueue-place, enqueue-IsPlaced}

known-put_other :
    (p : Player) (ps : List Player) (eid : ℕ)
    → (p.eid == eid) ≡ false
    → known (put p ps) eid ≡ known ps eid
unfolding put
known-put_other p [] eid e = refl
known-put_other p (r ∷ ps) eid e =
    let rest = known-put_other p ps eid e in
    elim (Bool-cases (r.eid == p.eid)) [
      | inl s ↦ rw (s, known_cons p (put p ps) eid, known_cons r ps eid, rest) (ground arith)
      | inr s ↦ rw (s, known_cons r (put p ps) eid, known_cons r ps eid, rest)
    ]

known-put_same :
    (p : Player) (v : Place) (ps : List Player)
    → known ps p.eid ≡ some v
    → known (put p ps) p.eid ≡ some (place p)
unfolding put known lookup
known-put_same p v [] h = absurd (none-ne-some _ h)
known-put_same p v (r ∷ ps) h = elim (Bool-cases (r.eid == p.eid)) [
  | inl s ↦ rw (s, known_cons p (put p ps) p.eid) (ground arith)
  | inr s ↦
      rw (s, known_cons r (put p ps) p.eid, s)
        (known-put_same p v ps (rw s at (sym (known_cons r ps p.eid) ∙ h)))
]

-- Of a player whose id is registered.
pub known-put :
    (p : Player) (v : Place) (ps : List Player) (eid : ℕ)
    → known ps p.eid ≡ some v
    → known (put p ps) eid ≡ (if p.eid == eid then some (place p) else known ps eid)
known-put p v ps eid h = elim (Bool-cases (p.eid == eid)) [
  | inl e ↦ rw (e, sym ((==_iff p.eid eid).0 e)) (known-put_same p v ps h)
  | inr e ↦ rw (e, known-put_other p ps eid e)
]

known-put-none :
    (p : Player) (ps : List Player) (eid : ℕ) → known ps eid ≡ none → known (put p ps) eid ≡ none
unfolding put
known-put-none p [] eid h = h
known-put-none p (r ∷ ps) eid h = elim (Bool-cases (r.eid == eid)) [
  | inl e ↦ absurd (none-ne-some _ (sym (rw e at (sym (known_cons r ps eid) ∙ h))))
  | inr e ↦
      let rest = known-put-none p ps eid (rw e at (sym (known_cons r ps eid) ∙ h)) in
      elim (Bool-cases (r.eid == p.eid)) [
        | inl s ↦
            let other = ap (λ n. n == eid) (sym ((==_iff r.eid p.eid).0 s)) ∙ e in
            rw (s, known_cons p (put p ps) eid, other) rest
        | inr s ↦ rw (s, known_cons r (put p ps) eid, e) rest
      ]
]

pub Distinct-put : (p : Player) (ps : List Player) → Distinct ps → Distinct (put p ps)
unfolding put
Distinct-put p [] h = tt
Distinct-put p (r ∷ ps) (new, h) =
    let rest = Distinct-put p ps h in
    elim (Bool-cases (r.eid == p.eid)) [
      | inl s ↦ rw s (known-put-none p ps p.eid (rw ((==_iff r.eid p.eid).0 s) at new), rest)
      | inr s ↦ rw s (known-put-none p ps r.eid new, rest)
    ]

pub All-put :
    (P : Player → Type 0) (p : Player) (ps : List Player) → P p → All P ps → All P (put p ps)
unfolding put
All-put P p [] hp h = tt
All-put P p (r ∷ ps) hp (hr, h) = elim (Bool-cases (r.eid == p.eid)) [
  | inl s ↦ rw s (hp, All-put P p ps hp h)
  | inr s ↦ rw s (hr, All-put P p ps hp h)
]

-- A property of all the players, for the one registered under an id.
pub All-lookup :
    (P : Player → Type 0) (eid : ℕ) (ps : List Player) (p : Player)
    → lookup eid ps ≡ some p
    → All P ps
    → P p × (p.eid ≡ eid)
unfolding lookup
All-lookup P eid [] p h all = absurd (none-ne-some _ h)
All-lookup P eid (r ∷ ps) p h (hr, all) = elim (Bool-cases (r.eid == eid)) [
  | inl s ↦
      let same = some-injective _ _ (rw s at h) in
      (subst P same hr, ap (λ q. q.eid) (sym same) ∙ (==_iff r.eid eid).0 s)
  | inr s ↦ All-lookup P eid ps p (rw s at h) all
]

pub tell_spawns-eid : (others : List Player) (p : Player) → (tell_spawns others p).eid ≡ p.eid
unfolding tell_spawns
tell_spawns-eid [] p = refl
tell_spawns-eid (o ∷ os) p = tell_spawns-eid os _ ∙ enqueue-eid (spawn_packet o) p

pub tell_spawns-place : (others : List Player) (p : Player) → place (tell_spawns others p) ≡ place p
unfolding tell_spawns
tell_spawns-place [] p = refl
tell_spawns-place (o ∷ os) p = tell_spawns-place os _ ∙ enqueue-place (spawn_packet o) p

pub tell_spawns-IsPlaced :
    (others : List Player) (p : Player) → IsPlaced p → IsPlaced (tell_spawns others p)
unfolding tell_spawns
tell_spawns-IsPlaced [] p h = h
tell_spawns-IsPlaced (o ∷ os) p h =
    tell_spawns-IsPlaced os _ (enqueue-IsPlaced (spawn_packet o) p h)
