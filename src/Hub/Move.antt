-- ===== src/Hub/Move.antt =====
-- internal/game/loop/hub.go: `onMove` and what it calls, and the player made from a JoinRequest.
use gomc.Prelude.{ℕ, ◌%◌, ◌==◌, not, ◌||◌, ◌&&◌, Bool, none, some, if◌then◌else◌}
use gomc.Prelude.{List, [], ◌∷◌, map}
use gomc.Packet.Ids.{Sent}
use gomc.Packet.Sent.Login.{LoginProperty}
use gomc.Packet.Sent.Entity.{encode_move_entity_pos_rot, encode_move_entity_pos}
use gomc.Packet.Sent.Entity.{encode_move_entity_rot, encode_rotate_head}
use gomc.Hub.{Player, encode, enqueue, lookup, remove_packet, spawn_packet}
use gomc.Hub.Floats.{Floats}

-- The session's channel is its room and what it holds.
pub record JoinRequest : Type 0 where
  pub entity_id : ℕ
  pub uuid : List ℕ
  pub name : List ℕ
  pub properties : List LoginProperty
  pub x : ℕ
  pub y : ℕ
  pub z : ℕ
  pub yaw : ℕ
  pub pitch : ℕ
  pub capacity : ℕ
  pub out : List (List ℕ)

pub record MoveRequest : Type 0 where
  pub entity_id : ℕ
  pub x : ℕ
  pub y : ℕ
  pub z : ℕ
  pub yaw : ℕ
  pub pitch : ℕ
  pub on_ground : Bool

-- 360 and 256 as a float32.
abbrev full_turn : ℕ
full_turn = 0x43b40000

abbrev angle_steps : ℕ
angle_steps = 0x43800000

-- 4096, 32768 and -32768 as a float64.
abbrev pub position_delta_unit : ℕ
position_delta_unit = 0x40b0000000000000

abbrev limit : ℕ
limit = 0x40e0000000000000

abbrev minus_limit : ℕ
minus_limit = 0xc0e0000000000000

-- `for _, other := range players { if other.eid != except { enqueue(other.out, body) } }`
abbrev pub spared : ℕ → List ℕ → Player → Player
spared except body other = if not (other.eid == except) then enqueue body other else other

unfoldable pub broadcast_except : List Player → ℕ → List ℕ → List Player
broadcast_except players except body = map (spared except body) players

-- The fields of the player that is registered under the id of `p` become those of `p`.
unfoldable pub put : Player → List Player → List Player
put p [] = []
put p (q ∷ qs) = (if q.eid == p.eid then p else q) ∷ put p qs

unfoldable pub head_packet : ℕ → ℕ → List ℕ
head_packet eid yaw =
    encode Sent.rotate_head (encode_rotate_head (record { entity_id = eid; head_yaw = yaw }))

module _ (fl : Floats) where
  unfoldable pub deg_to_angle : ℕ → ℕ
  deg_to_angle deg = fl.to_int32 (fl.mul32 (fl.div32 deg full_turn) angle_steps) % 256

  unfoldable pub new_player : JoinRequest → Player
  new_player r = record {
    eid = r.entity_id;
    uuid = r.uuid;
    name = r.name;
    props = r.properties;
    x = r.x;
    y = r.y;
    z = r.z;
    yaw = deg_to_angle r.yaw;
    pitch = deg_to_angle r.pitch;
    capacity = r.capacity;
    out = r.out;
  }

  unfoldable pub scaled : ℕ → ℕ → ℕ
  scaled m p = fl.mul (fl.sub m p) position_delta_unit

  -- `d != 0`
  abbrev pub nonzero : ℕ → Bool
  nonzero d = not (fl.eq d 0)

  -- `d <= -limit || d >= limit`
  unfoldable pub is_jump : ℕ → Bool
  is_jump d = fl.le d minus_limit || fl.le limit d

  -- `c += float64(d) / packet.PositionDeltaUnit`
  unfoldable pub advance : ℕ → ℕ → ℕ
  advance c d = fl.add c (fl.div (fl.of_int16 d) position_delta_unit)

  -- The branch of a teleport.
  unfoldable pub respawn : MoveRequest → ℕ → ℕ → Player → List Player → List Player
  respawn m yaw pitch p players =
      let p' = record p { x = m.x; y = m.y; z = m.z; yaw = yaw; pitch = pitch } in
      let despawned = broadcast_except (put p' players) p.eid (remove_packet p.eid) in
      broadcast_except despawned p.eid (spawn_packet p')

  -- The switch that chooses the packet.
  unfoldable pub delta_packet : ℕ → Bool → Bool → ℕ → ℕ → ℕ → ℕ → ℕ → Bool → List ℕ
  delta_packet eid pos_moved rotated ddx ddy ddz yaw pitch on_ground =
      if pos_moved && rotated
      then encode Sent.move_entity_pos_rot (
          encode_move_entity_pos_rot (record {
            entity_id = eid;
            dx = ddx;
            dy = ddy;
            dz = ddz;
            yaw = yaw;
            pitch = pitch;
            on_ground = on_ground;
          }))
      else if pos_moved
      then encode Sent.move_entity_pos (
          encode_move_entity_pos
            (record { entity_id = eid; dx = ddx; dy = ddy; dz = ddz; on_ground = on_ground }))
      else encode Sent.move_entity_rot (
          encode_move_entity_rot
            (record { entity_id = eid; yaw = yaw; pitch = pitch; on_ground = on_ground }))

  -- The rest of `onMove`, for the deltas as int16.
  unfoldable pub shift :
      MoveRequest → Bool → Bool → ℕ → ℕ → ℕ → ℕ → ℕ → Player → List Player → List Player
  shift m pos_moved rotated ddx ddy ddz yaw pitch p players =
      let body = delta_packet p.eid pos_moved rotated ddx ddy ddz yaw pitch m.on_ground in
      let p' = record p {
        x = advance p.x ddx;
        y = advance p.y ddy;
        z = advance p.z ddz;
        yaw = yaw;
        pitch = pitch;
      } in
      let told = broadcast_except (put p' players) p.eid body in
      if rotated then broadcast_except told p.eid (head_packet p.eid yaw) else told

  -- `posMoved` and `rotated`, and whether a delta exceeds an int16.
  unfoldable pub pos_moved : MoveRequest → Player → Bool
  pos_moved m p = nonzero (scaled m.x p.x) || (nonzero (scaled m.y p.y) || nonzero (scaled m.z p.z))

  unfoldable pub rotated : MoveRequest → Player → Bool
  rotated m p = not (deg_to_angle m.yaw == p.yaw) || not (deg_to_angle m.pitch == p.pitch)

  unfoldable pub jumps : MoveRequest → Player → Bool
  jumps m p = is_jump (scaled m.x p.x) || (is_jump (scaled m.y p.y) || is_jump (scaled m.z p.z))

  unfoldable pub move_player : MoveRequest → Player → List Player → List Player
  move_player m p players =
      let yaw = deg_to_angle m.yaw in
      let pitch = deg_to_angle m.pitch in
      if not (pos_moved m p) && not (rotated m p)
      then players
      else if pos_moved m p && jumps m p
      then respawn m yaw pitch p players
      else shift m (pos_moved m p) (rotated m p) (fl.to_int16 (scaled m.x p.x))
          (fl.to_int16 (scaled m.y p.y)) (fl.to_int16 (scaled m.z p.z)) yaw pitch p players

  unfoldable pub on_move : MoveRequest → List Player → List Player
  on_move m players = elim (lookup m.entity_id players) [
    | none ↦ players
    | some p ↦ move_player m p players
  ]
