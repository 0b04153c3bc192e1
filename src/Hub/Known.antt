-- ===== src/Hub/Known.antt =====
-- Where the registry has its players, after each of the changes that the handlers make to it.
use gomc.Prelude.{ℕ, ◌≡◌, refl, sym, ◌∙◌, inl, inr, Bool-cases, Option, none, some}
use gomc.Prelude.{List, [], ◌∷◌, length, All, map, ltb, ◌==◌, Bool, true, false}
use gomc.Prelude.{if◌then◌else◌, arith}
use gomc.Hub.{Player, enqueue, broadcast, delete, lookup}
use gomc.Hub.Registry.{enqueue-eid, All-map}
use gomc.Hub.Move.{broadcast_except, spared}
use gomc.Hub.View.{Place, place, known}
use gomc.Hub.Heard.{IsPlaced}

-- No two players are registered under one id.
abbrev pub Distinct : List Player → Type 0
Distinct [] = Unit {0}
Distinct (p ∷ ps) = (known ps p.eid ≡ none) × Distinct ps

pub enqueue-place : (b : List ℕ) (p : Player) → place (enqueue b p) ≡ place p
unfolding enqueue
enqueue-place b p = elim (Bool-cases (ltb (length p.out) p.capacity)) [
  | inl e ↦ rw e
  | inr e ↦ rw e
]

pub enqueue-IsPlaced : (b : List ℕ) (p : Player) → IsPlaced p → IsPlaced (enqueue b p)
unfolding enqueue
enqueue-IsPlaced b p h = elim (Bool-cases (ltb (length p.out) p.capacity)) [
  | inl e ↦ rw e h
  | inr e ↦ rw e h
]

spared-eid : (me : ℕ) (b : List ℕ) (p : Player) → (spared me b p).eid ≡ p.eid
spared-eid me b p = elim (Bool-cases (p.eid == me)) [
  | inl e ↦ rw e
  | inr e ↦ rw (e, enqueue-eid b p)
]

spared-place : (me : ℕ) (b : List ℕ) (p : Player) → place (spared me b p) ≡ place p
spared-place me b p = elim (Bool-cases (p.eid == me)) [
  | inl e ↦ rw e
  | inr e ↦ rw e (enqueue-place b p)
]

spared-IsPlaced : (me : ℕ) (b : List ℕ) (p : Player) → IsPlaced p → IsPlaced (spared me b p)
spared-IsPlaced me b p h = elim (Bool-cases (p.eid == me)) [
  | inl e ↦ rw e h
  | inr e ↦ rw e (enqueue-IsPlaced b p h)
]

pub known_cons :
    (p : Player) (ps : List Player) (eid : ℕ)
    → known (p ∷ ps) eid ≡ (if p.eid == eid then some (place p) else known ps eid)
unfolding known lookup
known_cons p ps eid = elim (Bool-cases (p.eid == eid)) [
  | inl e ↦ rw (known, lookup, e)
  | inr e ↦ rw (known, lookup, e)
]

-- A change of the channels only.
module _ (g : Player → Player) (g-eid : (p : Player) → (g p).eid ≡ p.eid)
    (g-place : (p : Player) → place (g p) ≡ place p) where
  known-map : (ps : List Player) (eid : ℕ) → known (map g ps) eid ≡ known ps eid
  known-map [] eid = refl
  known-map (p ∷ ps) eid =
      known_cons (g p) (map g ps) eid
      ∙ (rw (g-eid p, g-place p, known-map ps eid) (sym (known_cons p ps eid)))

  Distinct-map : (ps : List Player) → Distinct ps → Distinct (map g ps)
  Distinct-map [] h = tt
  Distinct-map (p ∷ ps) (new, h) = (rw (g-eid p) (known-map ps p.eid ∙ new), Distinct-map ps h)

pub known-broadcast :
    (b : List ℕ) (ps : List Player) (eid : ℕ) → known (broadcast b ps) eid ≡ known ps eid
known-broadcast b = known-map (enqueue b) (enqueue-eid b) (enqueue-place b)

pub Distinct-broadcast : (b : List ℕ) (ps : List Player) → Distinct ps → Distinct (broadcast b ps)
Distinct-broadcast b = Distinct-map (enqueue b) (enqueue-eid b) (enqueue-place b)

pub broadcast-IsPlaced :
    (b : List ℕ) (ps : List Player) → All IsPlaced ps → All IsPlaced (broadcast b ps)
broadcast-IsPlaced b ps = All-map IsPlaced (enqueue b) ps (enqueue-IsPlaced b)

pub known-broadcast_except :
    (ps : List Player) (me : ℕ) (b : List ℕ) (eid : ℕ)
    → known (broadcast_except ps me b) eid ≡ known ps eid
unfolding broadcast_except
known-broadcast_except ps me b = known-map (spared me b) (spared-eid me b) (spared-place me b) ps

pub Distinct-broadcast_except :
    (ps : List Player) (me : ℕ) (b : List ℕ) → Distinct ps → Distinct (broadcast_except ps me b)
unfolding broadcast_except
Distinct-broadcast_except ps me b =
    Distinct-map (spared me b) (spared-eid me b) (spared-place me b) ps

pub broadcast_except-IsPlaced :
    (ps : List Player) (me : ℕ) (b : List ℕ)
    → All IsPlaced ps
    → All IsPlaced (broadcast_except ps me b)
unfolding broadcast_except
broadcast_except-IsPlaced ps me b = All-map IsPlaced (spared me b) ps (spared-IsPlaced me b)

pub known-delete :
    (me : ℕ) (ps : List Player) (eid : ℕ)
    → known (delete me ps) eid ≡ (if me == eid then none else known ps eid)
unfolding delete known lookup
known-delete me [] eid = elim (Bool-cases (me == eid)) [ inl e ↦ rw e | inr e ↦ rw e ]
known-delete me (p ∷ ps) eid = elim (Bool-cases (p.eid == me)) [
  | inl e ↦ rw (e, known_cons p ps eid, known-delete me ps eid) (ground arith)
  | inr e ↦
      rw (e, known_cons p (delete me ps) eid, known_cons p ps eid, known-delete me ps eid)
        (ground arith)
]

if_same : (b : Bool) → (if◌then◌else◌ {A = Option Place} b none none) ≡ none
if_same true = refl
if_same false = refl

pub Distinct-delete : (me : ℕ) (ps : List Player) → Distinct ps → Distinct (delete me ps)
unfolding delete
Distinct-delete me [] h = tt
Distinct-delete me (p ∷ ps) (new, h) = elim (Bool-cases (p.eid == me)) [
  | inl e ↦ rw e (Distinct-delete me ps h)
  | inr e ↦
      rw e (known-delete me ps p.eid ∙ rw new (if_same (me == p.eid)), Distinct-delete me ps h)
]

pub known_present :
    (ps : List Player) (p : Player) (eid : ℕ)
    → lookup eid ps ≡ some p
    → known ps eid ≡ some (place p)
unfolding known
known_present ps p eid h = rw (known, h)
