-- ===== src/Packet/Examples.antt =====
-- Concrete runs of package packet, after its tests, and the theorems at concrete inputs.
use gomc.Prelude.{ℕ, true, ◌≤◌, ◌-◌, ◌^◌, ◌≡◌, refl, arith, List, [], ◌∷◌, ◌++◌, some}
use gomc.Codec.Writer
use gomc.Codec.Reads.{Reads}
use gomc.Codec.Ends.{Ends}
use gomc.Codec.Safe.{Bounded, Sticky}
use gomc.Packet.Joining
use gomc.Packet.Playing
use gomc.Packet.Registry.{State, Kind, decode, registrations, serverbound, new_serverbound}
use gomc.Packet.Registry.{register_all, empty_table}
use gomc.Packet.Dispatch.{registered, new_serverbound-serverbound}
use gomc.Packet.Safe.{decode-Bounded, decode-Sticky}
use gomc.Packet.Trailing.{trailing_var_int-var_int}
use gomc.Packet.Layout.{decode_handshake-Reads, decode_login_start-Reads}
use gomc.Packet.Layout.{decode_use_item_on-Ends}
use gomc.Packet.Received.{read_add_entity, encode_add_entity-Reads, read_login_success}
use gomc.Packet.Received.{encode_login_success-Reads}
use gomc.Packet.Sent.Entity.{AddEntity, encode_add_entity}
use gomc.Packet.Sent.Login.{LoginSuccess, LoginProperty, encode_login_success}
use gomc.Packet.Ids.{Sent, id_distinct}
use gomc.Codec.Utf8.{valid}

new_serverbound-serverbound_example :
    (register_all registrations (some empty_table) ≡ some serverbound)
    × (new_serverbound serverbound State.play 0x42 ≡ registered registrations State.play 0x42)
new_serverbound-serverbound_example = new_serverbound-serverbound State.play 0x42

decode-Bounded_example : Bounded (decode Kind.known_packs)
decode-Bounded_example = decode-Bounded Kind.known_packs

decode-Sticky_example : Sticky (decode Kind.use_item_on)
decode-Sticky_example = decode-Sticky Kind.use_item_on

trailing_var_int-var_int_example :
    Playing.trailing_var_int ((0x3f ∷ 0x00 ∷ 0x01 ∷ []) ++ Writer.var_int 300) ≡ 300
trailing_var_int-var_int_example =
    trailing_var_int-var_int (0x3f ∷ 0x00 ∷ 0x01 ∷ []) 300 (omega arith) (omega arith)

abbrev shake : Joining.Handshake
shake = record {
  protocol_version = 775;
  server_address = b'h' ∷ b'i' ∷ [];
  server_port = 25565;
  next_state = 2;
}

decode_handshake-Reads_example :
    Reads Joining.decode_handshake
      (Writer.var_int 775
        ++ (Writer.string (b'h' ∷ b'i' ∷ []) ++ (Writer.u_short 25565 ++ Writer.var_int 2)))
      shake
decode_handshake-Reads_example =
    decode_handshake-Reads shake (omega arith) (unfold valid in refl, omega arith) (omega arith)
      (omega arith)

abbrev id16 : List ℕ
id16 = 0 ∷ 1 ∷ 2 ∷ 3 ∷ 4 ∷ 5 ∷ 6 ∷ 7 ∷ 8 ∷ 9 ∷ 10 ∷ 11 ∷ 12 ∷ 13 ∷ 14 ∷ 255 ∷ []

abbrev start : Joining.LoginStart
start = record { name = b'A' ∷ b'l' ∷ []; uuid = id16 }

decode_login_start-Reads_example :
    Reads Joining.decode_login_start (Writer.string start.name ++ Writer.uuid id16) start
decode_login_start-Reads_example =
    decode_login_start-Reads start (unfold valid in refl, omega arith) refl

abbrev dig : Playing.PlayerAction
dig = record { status = 2; x = 2 ^ 32 - 5; y = 64; z = 7; face = 1; sequence = 300 }

abbrev place : Playing.UseItemOn
place = record { hand = 0; x = 1; y = 2 ^ 32 - 60; z = 3; face = 1; sequence = 300 }

decode_use_item_on-Ends_example :
    Ends Playing.decode_use_item_on
      (Writer.var_int 0
        ++ (Writer.position 1 (2 ^ 32 - 60) 3
            ++ (Writer.var_int 1 ++ ((63 ∷ 0 ∷ 0 ∷ 0 ∷ []) ++ Writer.var_int 300))))
      place
decode_use_item_on-Ends_example =
    decode_use_item_on-Ends place (63 ∷ 0 ∷ 0 ∷ 0 ∷ []) (omega arith)
      (omega arith, omega arith, omega arith) (omega arith) (omega arith) (omega arith)

abbrev player : AddEntity
player = record {
  entity_id = 7;
  id = id16;
  entity_type = 155;
  x = 0;
  y = 1;
  z = 2;
  pitch = 200;
  yaw = 100;
  head_yaw = 50;
  payload = 0;
}

encode_add_entity-Reads_example : Reads read_add_entity (encode_add_entity player) (0, player)
encode_add_entity-Reads_example =
    encode_add_entity-Reads player (omega arith, refl, omega arith)
      (omega arith, omega arith, omega arith) (omega arith)

abbrev textures : LoginProperty
textures = record { name = b't' ∷ []; value = b'v' ∷ []; signature = b's' ∷ [] }

abbrev welcome : LoginSuccess
welcome = record { id = id16; name = b'A' ∷ b'l' ∷ []; properties = textures ∷ [] }

encode_login_success-Reads_example : Reads read_login_success (encode_login_success welcome) welcome
encode_login_success-Reads_example =
    encode_login_success-Reads welcome refl (unfold valid in refl, omega arith)
      (omega arith, ((text, text', text''), tt))
  where
    text : (valid (b't' ∷ []) ≡ true) × (1 ≤ 131068)
    text = (unfold valid in refl, omega arith)

    text' : (valid (b'v' ∷ []) ≡ true) × (1 ≤ 131068)
    text' = (unfold valid in refl, omega arith)

    text'' : (valid (b's' ∷ []) ≡ true) × (1 ≤ 131068)
    text'' = (unfold valid in refl, omega arith)

id_distinct_example : Sent.keep_alive ≡ Sent.keep_alive
id_distinct_example = id_distinct Sent.keep_alive Sent.keep_alive refl refl
