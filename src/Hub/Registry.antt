-- ===== src/Hub/Registry.antt =====
-- Who is in the registry after each handler.
use gomc.Prelude.{ℕ, ◌≤◌, ◌≡◌, refl, sym, ap, ◌∙◌, inl, inr}
use gomc.Prelude.{List, [], ◌∷◌, map, length, none, some, Bool-cases, Option-cases}
use gomc.Prelude.{◌==◌, ltb, All}
use gomc.Hub.{Player, enqueue, broadcast, lookup, delete, on_leave, on_set_block}
use gomc.Hub.{remove_packet, forget_packet}
use mathlib.Core.Option.{none-ne-some}
use gomc.World.Blocks.{World, relative_y}
use gomc.World.Blocks.Stored.{set_block_outside}

pub enqueue-eid : (body : List ℕ) (p : Player) → (enqueue body p).eid ≡ p.eid
unfolding enqueue
enqueue-eid body p = elim (Bool-cases (ltb (length p.out) p.capacity)) [
  | inl e ↦ rw e
  | inr e ↦ rw e
]

lookup-delete : (eid : ℕ) (ps : List Player) → lookup eid (delete eid ps) ≡ none
unfolding lookup delete
lookup-delete eid [] = refl
lookup-delete eid (p ∷ ps) = elim (Bool-cases (p.eid == eid)) [
  | inl e ↦ rw e (lookup-delete eid ps)
  | inr e ↦ rw (e, e) (lookup-delete eid ps)
]

lookup-broadcast-none :
    (eid : ℕ) (body : List ℕ) (ps : List Player)
    → lookup eid ps ≡ none
    → lookup eid (broadcast body ps) ≡ none
unfolding lookup
lookup-broadcast-none eid body [] h = refl
lookup-broadcast-none eid body (p ∷ ps) h = elim (Bool-cases (p.eid == eid)) [
  | inl e ↦ absurd (none-ne-some _ (sym (rw e at h)))
  | inr e ↦ rw (enqueue-eid body p, e) (lookup-broadcast-none eid body ps (rw e at h))
]

pub on_leave_absent : (eid : ℕ) (ps : List Player) → lookup eid ps ≡ none → on_leave eid ps ≡ ps
unfolding on_leave
on_leave_absent eid ps e = rw (on_leave, e)

abbrev pub farewell : ℕ → Player → List Player → List Player
farewell eid p ps = broadcast (forget_packet p) (broadcast (remove_packet eid) (delete eid ps))

pub on_leave_present :
    (eid : ℕ) (ps : List Player) (p : Player)
    → lookup eid ps ≡ some p
    → on_leave eid ps ≡ farewell eid p ps
unfolding on_leave
on_leave_present eid ps p e = rw (on_leave, e)

-- A player who leaves is no longer registered.
pub lookup-on_leave : (eid : ℕ) (ps : List Player) → lookup eid (on_leave eid ps) ≡ none
lookup-on_leave eid ps = elim (Option-cases (lookup eid ps)) [
  | inl e ↦ ap (lookup eid) (on_leave_absent eid ps e) ∙ e
  | inr (p, e) ↦
      ap (lookup eid) (on_leave_present eid ps p e)
      ∙ lookup-broadcast-none eid _ _ (lookup-broadcast-none eid _ _ (lookup-delete eid ps))
]

pub All-map :
    (P : Player → Type 0) (g : Player → Player) (ps : List Player)
    → ((p : Player) → P p → P (g p))
    → All P ps
    → All P (map g ps)
All-map P g [] keeps h = tt
All-map P g (p ∷ ps) keeps (hp, hps) = (keeps p hp, All-map P g ps keeps hps)

pub All-delete :
    (P : Player → Type 0) (eid : ℕ) (ps : List Player) → All P ps → All P (delete eid ps)
unfolding delete
All-delete P eid [] h = tt
All-delete P eid (p ∷ ps) (hp, hps) = elim (Bool-cases (p.eid == eid)) [
  | inl e ↦ rw e (All-delete P eid ps hps)
  | inr e ↦ rw e (hp, All-delete P eid ps hps)
]

-- A block set outside the build range changes neither the world nor any player's queue.
pub on_set_block_outside :
    (x y z state : ℕ) (w : World) (ps : List Player)
    → 384 ≤ relative_y y
    → on_set_block x y z state (w, ps) ≡ (w, ps)
unfolding on_set_block
on_set_block_outside x y z state w ps h = rw (set_block_outside x y z state w h)
