-- ===== src/Hub.antt =====
-- internal/game/loop/hub.go: the registry of online players and its handlers. The channel of a
-- session is a bounded queue; the registry is a list of players, walked in its order, which stands
-- for any order of a map. A position is the word of its float. `onMove` stands in Hub/Move.
pub mod Floats
pub mod Move
pub mod Registry
pub mod View
pub mod Known
pub mod Put
pub mod Heard
pub mod Agrees
pub mod Present
pub mod Presence
pub mod Followed
pub mod Cases
pub mod Run
pub mod Channels
pub mod Interleaved
mod Examples
use gomc.Prelude.{ℕ, ltb, ◌==◌, not, Bool, true, false, Option, none, some, if◌then◌else◌}
use gomc.Prelude.{List, [], ◌∷◌, ◌++◌, map, length}
use gomc.Codec.Writer
use gomc.Packet.Ids
use gomc.Packet.Ids.{Sent}
use gomc.Packet.Sent.Login.{LoginProperty}
use gomc.Packet.Sent.Play.{encode_block_update}
use gomc.Packet.Sent.Entity.{PlayerInfoEntry, AddEntity, encode_player_info_update}
use gomc.Packet.Sent.Entity.{encode_player_info_remove, encode_remove_entities, encode_add_entity}
use gomc.Packet.Sent.Entity.{player_entity_type}
use gomc.Packet.Sent.Chat.{encode_system_chat}
use gomc.Text.{plain}
use gomc.Text.Utf8.{runes}
use gomc.World.Blocks.{World, set_block}

pub record Player : Type 0 where
  pub eid : ℕ
  pub uuid : List ℕ
  pub name : List ℕ
  pub props : List LoginProperty
  pub x : ℕ
  pub y : ℕ
  pub z : ℕ
  pub yaw : ℕ
  pub pitch : ℕ
  -- The session's channel: how many packets it holds, and those in it.
  pub capacity : ℕ
  pub out : List (List ℕ)

unfoldable pub encode : Sent → List ℕ → List ℕ
encode k body = Writer.var_int (Ids.id k) ++ body

-- The `select` with a default on a buffered channel, which drops the packet where the channel is
-- full. A run of the hub's loop takes nothing out of it.
unfoldable pub enqueue : List ℕ → Player → Player
enqueue body p =
    if ltb (length p.out) p.capacity then record p { out = p.out ++ (body ∷ []) } else p

abbrev pub broadcast : List ℕ → List Player → List Player
broadcast body players = map (enqueue body) players

-- `players[eid]`
unfoldable pub lookup : ℕ → List Player → Option Player
lookup eid [] = none
lookup eid (p ∷ ps) = let rest = lookup eid ps in if p.eid == eid then some p else rest

-- `delete(players, eid)`
unfoldable pub delete : ℕ → List Player → List Player
delete eid [] = []
delete eid (p ∷ ps) = let rest = delete eid ps in if p.eid == eid then rest else p ∷ rest

unfoldable pub info_entry : Player → PlayerInfoEntry
info_entry p = record { id = p.uuid; name = p.name; properties = p.props; listed = true }

unfoldable pub spawn : Player → AddEntity
spawn p = record {
  entity_id = p.eid;
  id = p.uuid;
  entity_type = player_entity_type;
  x = p.x;
  y = p.y;
  z = p.z;
  pitch = p.pitch;
  yaw = p.yaw;
  head_yaw = p.yaw;
  payload = 0;
}

unfoldable pub info_update : List Player → List ℕ
info_update ps =
    encode Sent.player_info_update
      (encode_player_info_update (record { players = map info_entry ps }))

unfoldable pub spawn_packet : Player → List ℕ
spawn_packet p = encode Sent.add_entity (encode_add_entity (spawn p))

-- `for _, other := range players { enqueue(p.out, encode(spawn(other))) }`
unfoldable pub tell_spawns : List Player → Player → Player
tell_spawns [] p = p
tell_spawns (other ∷ others) p = tell_spawns others (enqueue (spawn_packet other) p)

-- `p` is the player made from the request.
unfoldable pub on_join : Player → List Player → List Player
on_join p players =
    let told = tell_spawns players (enqueue (info_update (players ++ (p ∷ []))) p) in
    let others = broadcast (spawn_packet p) (broadcast (info_update (p ∷ [])) players) in
    told ∷ delete p.eid others

unfoldable pub remove_packet : ℕ → List ℕ
remove_packet eid =
    encode Sent.remove_entities (encode_remove_entities (record { entity_ids = eid ∷ [] }))

unfoldable pub forget_packet : Player → List ℕ
forget_packet p =
    encode Sent.player_info_remove (encode_player_info_remove (record { uuids = p.uuid ∷ [] }))

unfoldable pub on_leave : ℕ → List Player → List Player
on_leave eid players = elim (lookup eid players) [
  | none ↦ players
  | some p ↦ broadcast (forget_packet p) (broadcast (remove_packet eid) (delete eid players))
]

-- A hub without a world is left out.
unfoldable pub on_set_block : ℕ → ℕ → ℕ → ℕ → World × List Player → World × List Player
on_set_block x y z state (w, players) =
    let (w', ok) = set_block x y z state w in
    if ok
    then (
      w',
      broadcast
          (encode Sent.block_update
            (encode_block_update (record { x = x; y = y; z = z; block_state = state })))
          players,
    )
    else (w', players)

-- "<name> message", of the two as bytes.
unfoldable pub chat_text : List ℕ → List ℕ → List ℕ
chat_text name msg = (b'<' ∷ name) ++ ((b'>' ∷ b' ' ∷ []) ++ msg)

unfoldable pub chat_packet : Player → List ℕ → List ℕ
chat_packet p msg = encode Sent.system_chat (
    encode_system_chat (record { content = plain (runes (chat_text p.name msg)); overlay = false }))

unfoldable pub on_chat : ℕ → List ℕ → List Player → List Player
on_chat eid msg players = elim (lookup eid players) [
  | none ↦ players
  | some p ↦ broadcast (chat_packet p msg) players
]
