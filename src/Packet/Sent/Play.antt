-- ===== src/Packet/Sent/Play.antt =====
-- internal/protocol/packet: the clientbound packets of play.go, block.go and chunk.go.
use gomc.Prelude.{ℕ, List, ◌++◌, Bool}
use mathlib.Core.List.{flat_map}
use gomc.Codec.Writer.{bool, byte, u_byte, int, long, float, double, var_int, len32}
use gomc.Codec.Writer.{identifier, position, raw}

pub record LoginPlay : Type 0 where
  pub entity_id : ℕ
  pub hardcore : Bool
  pub dimension_names : List (List ℕ)
  pub max_players : ℕ
  pub view_distance : ℕ
  pub simulation_distance : ℕ
  pub reduced_debug : Bool
  pub enable_respawn_screen : Bool
  pub do_limited_crafting : Bool
  pub dimension_type : ℕ
  pub dimension_name : List ℕ
  pub hashed_seed : ℕ
  pub game_mode : ℕ
  pub previous_game_mode : ℕ
  pub is_debug : Bool
  pub is_flat : Bool
  pub has_death_location : Bool
  pub portal_cooldown : ℕ
  pub sea_level : ℕ
  pub enforces_secure_chat : Bool

unfoldable pub encode_login_play : LoginPlay → List ℕ
encode_login_play p =
    int p.entity_id
    ++ bool p.hardcore
    ++ var_int (len32 p.dimension_names)
    ++ flat_map identifier p.dimension_names
    ++ var_int p.max_players
    ++ var_int p.view_distance
    ++ var_int p.simulation_distance
    ++ bool p.reduced_debug
    ++ bool p.enable_respawn_screen
    ++ bool p.do_limited_crafting
    ++ var_int p.dimension_type
    ++ identifier p.dimension_name
    ++ long p.hashed_seed
    ++ u_byte p.game_mode
    ++ byte p.previous_game_mode
    ++ bool p.is_debug
    ++ bool p.is_flat
    ++ bool p.has_death_location
    ++ var_int p.portal_cooldown
    ++ var_int p.sea_level
    ++ bool p.enforces_secure_chat

pub record GameEvent : Type 0 where
  pub event : ℕ
  pub value : ℕ

unfoldable pub encode_game_event : GameEvent → List ℕ
encode_game_event p = u_byte p.event ++ float p.value

pub record SetCenterChunk : Type 0 where
  pub chunk_x : ℕ
  pub chunk_z : ℕ

unfoldable pub encode_set_center_chunk : SetCenterChunk → List ℕ
encode_set_center_chunk p = var_int p.chunk_x ++ var_int p.chunk_z

pub record SyncPlayerPosition : Type 0 where
  pub teleport_id : ℕ
  pub x : ℕ
  pub y : ℕ
  pub z : ℕ
  pub vel_x : ℕ
  pub vel_y : ℕ
  pub vel_z : ℕ
  pub yaw : ℕ
  pub pitch : ℕ
  pub flags : ℕ

unfoldable pub encode_sync_player_position : SyncPlayerPosition → List ℕ
encode_sync_player_position p =
    var_int p.teleport_id
    ++ double p.x
    ++ double p.y
    ++ double p.z
    ++ double p.vel_x
    ++ double p.vel_y
    ++ double p.vel_z
    ++ float p.yaw
    ++ float p.pitch
    ++ int p.flags

pub record BlockUpdate : Type 0 where
  pub x : ℕ
  pub y : ℕ
  pub z : ℕ
  pub block_state : ℕ

unfoldable pub encode_block_update : BlockUpdate → List ℕ
encode_block_update p = position p.x p.y p.z ++ var_int p.block_state

pub record BlockChangedAck : Type 0 where
  pub sequence : ℕ

unfoldable pub encode_block_changed_ack : BlockChangedAck → List ℕ
encode_block_changed_ack p = var_int p.sequence

pub record ChunkData : Type 0 where
  pub x : ℕ
  pub z : ℕ
  pub payload : List ℕ

unfoldable pub encode_chunk_data : ChunkData → List ℕ
encode_chunk_data p = int p.x ++ int p.z ++ raw p.payload

pub record UnloadChunk : Type 0 where
  pub x : ℕ
  pub z : ℕ

unfoldable pub encode_unload_chunk : UnloadChunk → List ℕ
encode_unload_chunk p = int p.z ++ int p.x

pub record KeepAlivePlayClientbound : Type 0 where
  pub keep_alive_id : ℕ

unfoldable pub encode_keep_alive_play_clientbound : KeepAlivePlayClientbound → List ℕ
encode_keep_alive_play_clientbound p = long p.keep_alive_id
