-- ===== src/Packet/Sent/Entity.antt =====
-- internal/protocol/packet: the clientbound packets of entity.go.
use gomc.Prelude.{ℕ, List, ◌++◌, Bool, bit_or}
use mathlib.Core.List.{flat_map}
use gomc.Codec.Writer.{bool, u_byte, angle, short, double, var_int, len32}
use gomc.Codec.Writer.{string, uuid}
use gomc.Packet.Sent.Login.{LoginProperty, encode_login_property}

abbrev pub pi_add_player : ℕ
pi_add_player = 0x01

abbrev pub pi_update_listed : ℕ
pi_update_listed = 0x08

abbrev pub player_entity_type : ℕ
player_entity_type = 155

pub record PlayerInfoEntry : Type 0 where
  pub id : List ℕ
  pub name : List ℕ
  pub properties : List LoginProperty
  pub listed : Bool

unfoldable pub encode_player_info_entry : PlayerInfoEntry → List ℕ
encode_player_info_entry p =
    uuid p.id
    ++ string p.name
    ++ var_int (len32 p.properties)
    ++ flat_map encode_login_property p.properties
    ++ bool p.listed

pub record PlayerInfoUpdate : Type 0 where
  pub players : List PlayerInfoEntry

unfoldable pub encode_player_info_update : PlayerInfoUpdate → List ℕ
encode_player_info_update p =
    u_byte (bit_or pi_add_player pi_update_listed)
    ++ var_int (len32 p.players)
    ++ flat_map encode_player_info_entry p.players

pub record PlayerInfoRemove : Type 0 where
  pub uuids : List (List ℕ)

unfoldable pub encode_player_info_remove : PlayerInfoRemove → List ℕ
encode_player_info_remove p = var_int (len32 p.uuids) ++ flat_map uuid p.uuids

pub record AddEntity : Type 0 where
  pub entity_id : ℕ
  pub id : List ℕ
  pub entity_type : ℕ
  pub x : ℕ
  pub y : ℕ
  pub z : ℕ
  pub pitch : ℕ
  pub yaw : ℕ
  pub head_yaw : ℕ
  pub payload : ℕ

unfoldable pub encode_add_entity : AddEntity → List ℕ
encode_add_entity p =
    var_int p.entity_id
    ++ uuid p.id
    ++ var_int p.entity_type
    ++ double p.x
    ++ double p.y
    ++ double p.z
    ++ var_int 0
    ++ angle p.pitch
    ++ angle p.yaw
    ++ angle p.head_yaw
    ++ var_int p.payload

pub record RemoveEntities : Type 0 where
  pub entity_ids : List ℕ

unfoldable pub encode_remove_entities : RemoveEntities → List ℕ
encode_remove_entities p = var_int (len32 p.entity_ids) ++ flat_map var_int p.entity_ids

pub record MoveEntityPos : Type 0 where
  pub entity_id : ℕ
  pub dx : ℕ
  pub dy : ℕ
  pub dz : ℕ
  pub on_ground : Bool

unfoldable pub encode_move_entity_pos : MoveEntityPos → List ℕ
encode_move_entity_pos p =
    var_int p.entity_id ++ short p.dx ++ short p.dy ++ short p.dz ++ bool p.on_ground

pub record MoveEntityPosRot : Type 0 where
  pub entity_id : ℕ
  pub dx : ℕ
  pub dy : ℕ
  pub dz : ℕ
  pub yaw : ℕ
  pub pitch : ℕ
  pub on_ground : Bool

unfoldable pub encode_move_entity_pos_rot : MoveEntityPosRot → List ℕ
encode_move_entity_pos_rot p =
    var_int p.entity_id
    ++ short p.dx
    ++ short p.dy
    ++ short p.dz
    ++ angle p.yaw
    ++ angle p.pitch
    ++ bool p.on_ground

pub record MoveEntityRot : Type 0 where
  pub entity_id : ℕ
  pub yaw : ℕ
  pub pitch : ℕ
  pub on_ground : Bool

unfoldable pub encode_move_entity_rot : MoveEntityRot → List ℕ
encode_move_entity_rot p = var_int p.entity_id ++ angle p.yaw ++ angle p.pitch ++ bool p.on_ground

pub record RotateHead : Type 0 where
  pub entity_id : ℕ
  pub head_yaw : ℕ

unfoldable pub encode_rotate_head : RotateHead → List ℕ
encode_rotate_head p = var_int p.entity_id ++ angle p.head_yaw
