-- ===== src/Hub/Examples.antt =====
-- Concrete runs of the hub, after hub_test.go, and the theorems at concrete inputs.
use gomc.Prelude.{ℕ, ◌+◌, ◌-◌, ◌%◌, ◌^◌, ◌<◌, ◌≡◌, ap, refl, arith, List, [], ◌∷◌, none, some, All}
use gomc.Prelude.{◌==◌, ==_iff, true, false, replicate, length}
use gomc.Hub.{tell_spawns, delete, enqueue}
use gomc.Hub.Move.{
  move_player, pos_moved, scaled, jumps, is_jump, shift, rotated, deg_to_angle, broadcast_except,
  put,
}
use gomc.Hub.{Player, lookup, on_join}
use gomc.Hub.Run.{Event, run, step}
use gomc.Hub.Followed.{heard-run, IsSound}
use gomc.Hub.Channels.{Action, acts, new}
use gomc.Hub.Interleaved.{acts-run, state_of}
use gomc.Hub.Floats.{Floats, FloatLaws}
use gomc.Hub.Move.{JoinRequest, MoveRequest, new_player, on_move}
use gomc.Hub.View.{heard, known}
use gomc.World.Blocks.{new_world}

abbrev player : ℕ → Player
player eid = record {
  eid = eid;
  uuid = [];
  name = b'A' ∷ [];
  props = [];
  x = 0;
  y = 0;
  z = 0;
  yaw = 0;
  pitch = 0;
  capacity = 1;
  out = [];
}

-- Fixed-point numbers modulo 2^64 in place of floats.
abbrev fixed_point : Floats
fixed_point = record {
  add = λ a b. (a + b) % 2 ^ 64;
  sub = λ a b. (a + 2 ^ 64 - b) % 2 ^ 64;
  mul = λ a b. a;
  div = λ a b. a;
  eq = λ a b. a == b;
  le = λ a b. false;
  to_int16 = λ a. a % 2 ^ 16;
  of_int16 = λ a. a;
  mul32 = λ a b. a;
  div32 = λ a b. a;
  to_int32 = λ a. a;
}

fixed_point-FloatLaws : FloatLaws fixed_point
fixed_point-FloatLaws = record {
  add-lt = λ a b. omega arith;
  to_int16-lt = λ a. omega arith;
  to_int16_zero = λ a e. ap (λ n. n % 2 ^ 16) ((==_iff a 0).0 e);
}

abbrev joining : ℕ → ℕ → JoinRequest
joining eid x = record {
  entity_id = eid;
  uuid = replicate 16 eid;
  name = b'A' ∷ [];
  properties = [];
  x = x;
  y = 0;
  z = 0;
  yaw = 0;
  pitch = 0;
  capacity = 20;
  out = [];
}

abbrev moving : ℕ → ℕ → ℕ → MoveRequest
moving eid x yaw = record {
  entity_id = eid;
  x = x;
  y = 0;
  z = 0;
  yaw = yaw;
  pitch = 0;
  on_ground = true;
}

-- Two players, of whom the second moves and turns.
abbrev meeting : List Event
meeting = Event.join (joining 1 7) ∷ Event.join (joining 2 9) ∷ Event.move (moving 2 12 3) ∷ []

-- The first of them, after `meeting`.
abbrev first : Player
first = elim (lookup 1 (run fixed_point meeting (new_world, [])).1) [ none ↦ player 1 | some p ↦ p ]

first_registered : lookup 1 (run fixed_point meeting (new_world, [])).1 ≡ some first
unfolding run step on_join new_player on_move lookup tell_spawns delete enqueue move_player
    pos_moved scaled jumps is_jump shift rotated deg_to_angle broadcast_except put
first_registered = refl

first_room : length first.out < first.capacity
unfolding run step on_join new_player on_move lookup tell_spawns delete enqueue move_player
    pos_moved scaled jumps is_jump shift rotated deg_to_angle broadcast_except put
first_room = omega arith

first_eid : (first.eid == 2) ≡ false
unfolding run step on_join new_player on_move lookup tell_spawns delete enqueue move_player
    pos_moved scaled jumps is_jump shift rotated deg_to_angle broadcast_except put
first_eid = refl

heard-run_example :
    heard fixed_point 2 first.out none ≡ known (run fixed_point meeting (new_world, [])).1 2
heard-run_example =
    heard-run fixed_point meeting new_world 1 2 first fixed_point-FloatLaws
      (
        (omega arith, refl, omega arith, omega arith, omega arith, refl),
        (
          (omega arith, refl, omega arith, omega arith, omega arith, refl),
          ((omega arith, omega arith, omega arith), tt),
        ),
      )
      first_registered first_room first_eid

-- The same requests, made and served in turns, with a move that comes before its mover has joined.
abbrev turns : List Action
turns =
    Action.call_move (moving 2 1 1)
    ∷ Action.call_join (joining 1 7)
    ∷ Action.take_move
    ∷ Action.call_join (joining 2 9)
    ∷ Action.take_join
    ∷ Action.take_join
    ∷ []

acts-run_example :
    (es : List Event) × All IsSound es
    × (state_of (acts fixed_point turns (new new_world)) ≡ run fixed_point es (new_world, []))
acts-run_example = acts-run fixed_point IsSound new_world turns (
  (omega arith, omega arith, omega arith),
  (
    (omega arith, refl, omega arith, omega arith, omega arith, refl),
    (tt, ((omega arith, refl, omega arith, omega arith, omega arith, refl), (tt, (tt, tt)))),
  ),
)
