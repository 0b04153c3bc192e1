-- ===== src/Packet/Ids.antt =====
-- The `ID` methods of the clientbound packets.
use gomc.Prelude.{ℕ, ◌≡◌, refl, sym, ◌∙◌, Option, none, some}
use gomc.Prelude.{List, [], ◌∷◌, ◌==◌, ◌&&◌, if◌then◌else◌}
use mathlib.Core.Option.{some-injective}
use gomc.Packet.Registry.{State, state_code}

-- The clientbound packets, by their types in the source.
pub data Sent : Type 0 where
  status_response status_pong : Sent
  encryption_request login_success set_compression : Sent
  plugin_message finish_configuration keep_alive registry_data feature_flags update_tags : Sent
  known_packs : Sent
  login_play game_event set_center_chunk chunk_data unload_chunk sync_player_position : Sent
  keep_alive_play add_entity remove_entities player_info_update player_info_remove : Sent
  move_entity_pos move_entity_pos_rot move_entity_rot rotate_head system_chat : Sent
  block_update block_changed_ack : Sent

-- The state that a packet is sent in.
unfoldable pub sent_state : Sent → State
sent_state Sent.status_response = State.status
sent_state Sent.status_pong = State.status
sent_state Sent.encryption_request = State.login
sent_state Sent.login_success = State.login
sent_state Sent.set_compression = State.login
sent_state Sent.plugin_message = State.configuration
sent_state Sent.finish_configuration = State.configuration
sent_state Sent.keep_alive = State.configuration
sent_state Sent.registry_data = State.configuration
sent_state Sent.feature_flags = State.configuration
sent_state Sent.update_tags = State.configuration
sent_state Sent.known_packs = State.configuration
sent_state Sent.login_play = State.play
sent_state Sent.game_event = State.play
sent_state Sent.set_center_chunk = State.play
sent_state Sent.chunk_data = State.play
sent_state Sent.unload_chunk = State.play
sent_state Sent.sync_player_position = State.play
sent_state Sent.keep_alive_play = State.play
sent_state Sent.add_entity = State.play
sent_state Sent.remove_entities = State.play
sent_state Sent.player_info_update = State.play
sent_state Sent.player_info_remove = State.play
sent_state Sent.move_entity_pos = State.play
sent_state Sent.move_entity_pos_rot = State.play
sent_state Sent.move_entity_rot = State.play
sent_state Sent.rotate_head = State.play
sent_state Sent.system_chat = State.play
sent_state Sent.block_update = State.play
sent_state Sent.block_changed_ack = State.play

unfoldable pub id : Sent → ℕ
id Sent.status_response = 0x00
id Sent.status_pong = 0x01
id Sent.encryption_request = 0x01
id Sent.login_success = 0x02
id Sent.set_compression = 0x03
id Sent.plugin_message = 0x01
id Sent.finish_configuration = 0x03
id Sent.keep_alive = 0x04
id Sent.registry_data = 0x07
id Sent.feature_flags = 0x0c
id Sent.update_tags = 0x0d
id Sent.known_packs = 0x0e
id Sent.login_play = 0x31
id Sent.game_event = 0x26
id Sent.set_center_chunk = 0x5e
id Sent.chunk_data = 0x2d
id Sent.unload_chunk = 0x25
id Sent.sync_player_position = 0x48
id Sent.keep_alive_play = 0x2c
id Sent.add_entity = 0x01
id Sent.remove_entities = 0x4d
id Sent.player_info_update = 0x46
id Sent.player_info_remove = 0x45
id Sent.move_entity_pos = 0x35
id Sent.move_entity_pos_rot = 0x36
id Sent.move_entity_rot = 0x38
id Sent.rotate_head = 0x53
id Sent.system_chat = 0x79
id Sent.block_update = 0x08
id Sent.block_changed_ack = 0x04

-- What a client takes an id for, in a state, among the packets of a list.
pick : List Sent → State → ℕ → Option Sent
unfolding sent_state id
pick [] s i = none
pick (k ∷ ks) s i =
    let rest = pick ks s i in
    if state_code (sent_state k) == state_code s && (id k == i) then some k else rest

abbrev all_sent : List Sent
all_sent =
    Sent.status_response ∷ Sent.status_pong ∷ Sent.encryption_request ∷ Sent.login_success
    ∷ Sent.set_compression ∷ Sent.plugin_message ∷ Sent.finish_configuration ∷ Sent.keep_alive
    ∷ Sent.registry_data ∷ Sent.feature_flags ∷ Sent.update_tags ∷ Sent.known_packs
    ∷ Sent.login_play ∷ Sent.game_event ∷ Sent.set_center_chunk ∷ Sent.chunk_data
    ∷ Sent.unload_chunk ∷ Sent.sync_player_position ∷ Sent.keep_alive_play ∷ Sent.add_entity
    ∷ Sent.remove_entities ∷ Sent.player_info_update ∷ Sent.player_info_remove
    ∷ Sent.move_entity_pos ∷ Sent.move_entity_pos_rot ∷ Sent.move_entity_rot ∷ Sent.rotate_head
    ∷ Sent.system_chat ∷ Sent.block_update ∷ Sent.block_changed_ack ∷ []

pick-id : (k : Sent) → pick all_sent (sent_state k) (id k) ≡ some k
unfolding pick sent_state id
pick-id Sent.status_response = refl
pick-id Sent.status_pong = refl
pick-id Sent.encryption_request = refl
pick-id Sent.login_success = refl
pick-id Sent.set_compression = refl
pick-id Sent.plugin_message = refl
pick-id Sent.finish_configuration = refl
pick-id Sent.keep_alive = refl
pick-id Sent.registry_data = refl
pick-id Sent.feature_flags = refl
pick-id Sent.update_tags = refl
pick-id Sent.known_packs = refl
pick-id Sent.login_play = refl
pick-id Sent.game_event = refl
pick-id Sent.set_center_chunk = refl
pick-id Sent.chunk_data = refl
pick-id Sent.unload_chunk = refl
pick-id Sent.sync_player_position = refl
pick-id Sent.keep_alive_play = refl
pick-id Sent.add_entity = refl
pick-id Sent.remove_entities = refl
pick-id Sent.player_info_update = refl
pick-id Sent.player_info_remove = refl
pick-id Sent.move_entity_pos = refl
pick-id Sent.move_entity_pos_rot = refl
pick-id Sent.move_entity_rot = refl
pick-id Sent.rotate_head = refl
pick-id Sent.system_chat = refl
pick-id Sent.block_update = refl
pick-id Sent.block_changed_ack = refl

-- Two clientbound packets that are sent in one state with one id are the same packet.
pub id_distinct : (k k' : Sent) → sent_state k ≡ sent_state k' → id k ≡ id k' → k ≡ k'
id_distinct k k' hs hi = some-injective k k' (sym (pick-id k) ∙ rw (hs, hi) (pick-id k'))
