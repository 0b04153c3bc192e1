-- ===== src/Packet/Safe.antt =====
-- Every packet's `Decode` on every input.
use gomc.Prelude.{ℕ, zero, suc, []}
use gomc.Codec.Safe.{
  Bounded, Sticky, bounded_methods, sticky_methods, if_failed-Bounded, bind-Bounded, pure-Bounded,
}
use gomc.Packet.Joining
use gomc.Packet.Playing
use gomc.Packet.Registry.{Kind, decode}

known_pack-Bounded : Bounded Joining.known_pack
unfolding Joining.known_pack
known_pack-Bounded = search bounded_methods depth 9

known_pack-Sticky : Sticky Joining.known_pack
unfolding Joining.known_pack
known_pack-Sticky = search sticky_methods depth 9

known_packs-Bounded : (n : ℕ) → Bounded (Joining.known_packs n)
unfolding Joining.known_packs
known_packs-Bounded zero = search bounded_methods
known_packs-Bounded (suc n) =
    bind-Bounded _ known_pack-Bounded λ pack.
      bind-Bounded _ (if_failed-Bounded [] _ (known_packs-Bounded n)) λ packs. pure-Bounded _

decode_known_packs-Bounded : Bounded Joining.decode_known_packs
unfolding Joining.decode_known_packs
decode_known_packs-Bounded = search (bounded_methods, known_packs-Bounded) depth 9

decode_known_packs-Sticky : Sticky Joining.decode_known_packs
unfolding Joining.decode_known_packs
decode_known_packs-Sticky = search sticky_methods depth 9

decode_item-Bounded : (slot : ℕ) → Bounded (Playing.decode_item slot)
unfolding Playing.decode_item
decode_item-Bounded slot = search bounded_methods depth 9

decode_item-Sticky : (slot : ℕ) → Sticky (Playing.decode_item slot)
unfolding Playing.decode_item
decode_item-Sticky slot = search sticky_methods depth 9

decode_slot-Bounded : Bounded Playing.decode_set_creative_mode_slot
unfolding Playing.decode_set_creative_mode_slot
decode_slot-Bounded = search (bounded_methods, decode_item-Bounded) depth 9

decode_slot-Sticky : Sticky Playing.decode_set_creative_mode_slot
unfolding Playing.decode_set_creative_mode_slot
decode_slot-Sticky = search (sticky_methods, decode_item-Sticky) depth 9

-- Whatever bytes a client sends, and from whichever offset, decoding any packet leaves the input as
-- it is, never moves the offset back, and keeps it within the input.
pub decode-Bounded : (k : Kind) → Bounded (decode k)
unfolding decode Joining.decode_handshake Joining.decode_status_ping Joining.decode_login_start
    Joining.decode_encryption_response Joining.decode_client_information
    Joining.decode_plugin_message_serverbound Joining.decode_keep_alive_serverbound
    Playing.decode_confirm_teleport Playing.decode_move_player_pos
    Playing.decode_move_player_pos_rot Playing.decode_move_player_rot Playing.decode_chat_message
    Playing.decode_player_action Playing.decode_use_item_on Playing.decode_set_carried_item
decode-Bounded Kind.handshake = search bounded_methods depth 24
decode-Bounded Kind.status_request = search bounded_methods depth 24
decode-Bounded Kind.status_ping = search bounded_methods depth 24
decode-Bounded Kind.login_start = search bounded_methods depth 24
decode-Bounded Kind.encryption_response = search bounded_methods depth 24
decode-Bounded Kind.login_acknowledged = search bounded_methods depth 24
decode-Bounded Kind.client_information = search bounded_methods depth 24
decode-Bounded Kind.plugin_message = search bounded_methods depth 24
decode-Bounded Kind.ack_finish_configuration = search bounded_methods depth 24
decode-Bounded Kind.keep_alive = search bounded_methods depth 24
decode-Bounded Kind.known_packs = search (bounded_methods, decode_known_packs-Bounded) depth 24
decode-Bounded Kind.confirm_teleport = search bounded_methods depth 24
decode-Bounded Kind.player_loaded = search bounded_methods depth 24
decode-Bounded Kind.move_player_pos = search bounded_methods depth 24
decode-Bounded Kind.move_player_pos_rot = search bounded_methods depth 24
decode-Bounded Kind.move_player_rot = search bounded_methods depth 24
decode-Bounded Kind.chat_message = search bounded_methods depth 24
decode-Bounded Kind.player_action = search bounded_methods depth 24
decode-Bounded Kind.use_item_on = search bounded_methods depth 24
decode-Bounded Kind.set_carried_item = search bounded_methods depth 24
decode-Bounded Kind.set_creative_mode_slot = search (bounded_methods, decode_slot-Bounded) depth 24

-- On a reader with an error, decoding any packet changes nothing.
pub decode-Sticky : (k : Kind) → Sticky (decode k)
unfolding decode Joining.decode_handshake Joining.decode_status_ping Joining.decode_login_start
    Joining.decode_encryption_response Joining.decode_client_information
    Joining.decode_plugin_message_serverbound Joining.decode_keep_alive_serverbound
    Playing.decode_confirm_teleport Playing.decode_move_player_pos
    Playing.decode_move_player_pos_rot Playing.decode_move_player_rot Playing.decode_chat_message
    Playing.decode_player_action Playing.decode_use_item_on Playing.decode_set_carried_item
decode-Sticky Kind.handshake = search sticky_methods depth 24
decode-Sticky Kind.status_request = search sticky_methods depth 24
decode-Sticky Kind.status_ping = search sticky_methods depth 24
decode-Sticky Kind.login_start = search sticky_methods depth 24
decode-Sticky Kind.encryption_response = search sticky_methods depth 24
decode-Sticky Kind.login_acknowledged = search sticky_methods depth 24
decode-Sticky Kind.client_information = search sticky_methods depth 24
decode-Sticky Kind.plugin_message = search sticky_methods depth 24
decode-Sticky Kind.ack_finish_configuration = search sticky_methods depth 24
decode-Sticky Kind.keep_alive = search sticky_methods depth 24
decode-Sticky Kind.known_packs = search (sticky_methods, decode_known_packs-Sticky) depth 24
decode-Sticky Kind.confirm_teleport = search sticky_methods depth 24
decode-Sticky Kind.player_loaded = search sticky_methods depth 24
decode-Sticky Kind.move_player_pos = search sticky_methods depth 24
decode-Sticky Kind.move_player_pos_rot = search sticky_methods depth 24
decode-Sticky Kind.move_player_rot = search sticky_methods depth 24
decode-Sticky Kind.chat_message = search sticky_methods depth 24
decode-Sticky Kind.player_action = search sticky_methods depth 24
decode-Sticky Kind.use_item_on = search sticky_methods depth 24
decode-Sticky Kind.set_carried_item = search sticky_methods depth 24
decode-Sticky Kind.set_creative_mode_slot = search (sticky_methods, decode_slot-Sticky) depth 24
