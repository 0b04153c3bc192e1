-- ===== src/Hub/Cases.antt =====
-- The branches of `onMove`, for what each of them gives.
use gomc.Prelude.{List, inl, inr, some, Option-cases, Bool, true, false, if◌then◌else◌}
use gomc.Prelude.{◌≡◌}
use gomc.Hub.{Player, lookup}
use gomc.Hub.Floats.{Floats}
use gomc.Hub.Move.{MoveRequest, on_move, move_player, respawn, shift, deg_to_angle, scaled}
use gomc.Hub.Move.{pos_moved, rotated}

if-cases {ℓ κ} :
    {A : Type ℓ} (P : A → Type κ) (b : Bool) {x y : A} → P x → P y → P (if b then x else y)
if-cases P true hx hy = hx
if-cases P false hx hy = hy

-- What the last branch makes of the registry.
abbrev pub shifted : Floats → MoveRequest → Player → List Player → List Player
shifted fl m p ps =
    shift fl m (pos_moved fl m p) (rotated fl m p) (fl.to_int16 (scaled fl m.x p.x))
      (fl.to_int16 (scaled fl m.y p.y)) (fl.to_int16 (scaled fl m.z p.z)) (deg_to_angle fl m.yaw)
      (deg_to_angle fl m.pitch) p ps

-- What the branch of a teleport makes of it.
abbrev pub respawned : Floats → MoveRequest → Player → List Player → List Player
respawned fl m p ps = respawn fl m (deg_to_angle fl m.yaw) (deg_to_angle fl m.pitch) p ps

pub on_move-cases :
    (fl : Floats) (P : List Player → Type 0) (m : MoveRequest) (ps : List Player)
    → P ps
    → ((p : Player)
        → lookup m.entity_id ps ≡ some p
        → P (respawned fl m p ps) × P (shifted fl m p ps))
    → P (on_move fl m ps)
unfolding on_move move_player
on_move-cases fl P m ps stay moves = elim (Option-cases (lookup m.entity_id ps)) [
  | inl e ↦ rw (on_move, e) stay
  | inr (p, e) ↦ rw (on_move, e) (if-cases P _ stay (if-cases P _ (moves p e).0 (moves p e).1))
]
