-- ===== src/Packet/Joining.antt =====
-- internal/protocol/packet: the serverbound packets before Play, of handshake.go, status.go, login.go
-- and configuration.go. A packet without fields is the unit type.
use gomc.Prelude.{ℕ, zero, suc}
use gomc.Prelude.{List, [], ◌∷◌, Option, Bool}
use gomc.Prelude.{if◌then◌else◌}
use gomc.Codec.Reader
use gomc.Codec.Reader.{Read, ◌>>=◌, pure, if_failed, when◌then◌else◌, is_negative, add_group}
use gomc.Codec.Reader.{bool, byte, u_byte, short, u_short, long, float, double, var_int, string}
use gomc.Codec.Reader.{identifier, position, byte_array, remaining_bytes}

pub record Handshake : Type 0 where
  pub protocol_version : ℕ
  pub server_address : List ℕ
  pub server_port : ℕ
  pub next_state : ℕ

unfoldable pub decode_handshake : Read Handshake
decode_handshake = do
  protocol_version ← var_int
  server_address ← string 255
  server_port ← u_short
  next_state ← var_int
  pure (record {
    protocol_version = protocol_version;
    server_address = server_address;
    server_port = server_port;
    next_state = next_state;
  })

pub record StatusPing : Type 0 where
  pub payload : ℕ

unfoldable pub decode_status_ping : Read StatusPing
decode_status_ping = do payload ← long; pure (record { payload = payload })

pub record LoginStart : Type 0 where
  pub name : List ℕ
  pub uuid : List ℕ

unfoldable pub decode_login_start : Read LoginStart
decode_login_start = do
  name ← string 16
  uuid ← Reader.uuid
  pure (record { name = name; uuid = uuid })

pub record EncryptionResponse : Type 0 where
  pub shared_secret : Option (List ℕ)
  pub verify_token : Option (List ℕ)

unfoldable pub decode_encryption_response : Read EncryptionResponse
decode_encryption_response = do
  shared_secret ← byte_array
  verify_token ← byte_array
  pure (record { shared_secret = shared_secret; verify_token = verify_token })

pub record ClientInformation : Type 0 where
  pub locale : List ℕ
  pub view_distance : ℕ
  pub chat_mode : ℕ
  pub chat_colors : Bool
  pub displayed_skin_parts : ℕ
  pub main_hand : ℕ
  pub enable_text_filtering : Bool
  pub allow_server_listings : Bool
  pub particle_status : ℕ

unfoldable pub decode_client_information : Read ClientInformation
decode_client_information = do
  locale ← string 16
  view_distance ← byte
  chat_mode ← var_int
  chat_colors ← bool
  displayed_skin_parts ← u_byte
  main_hand ← var_int
  enable_text_filtering ← bool
  allow_server_listings ← bool
  particle_status ← var_int
  pure (record {
    locale = locale;
    view_distance = view_distance;
    chat_mode = chat_mode;
    chat_colors = chat_colors;
    displayed_skin_parts = displayed_skin_parts;
    main_hand = main_hand;
    enable_text_filtering = enable_text_filtering;
    allow_server_listings = allow_server_listings;
    particle_status = particle_status;
  })

pub record PluginMessageServerbound : Type 0 where
  pub channel : List ℕ
  pub payload : Option (List ℕ)

unfoldable pub decode_plugin_message_serverbound : Read PluginMessageServerbound
decode_plugin_message_serverbound = do
  channel ← identifier
  payload ← remaining_bytes
  pure (record { channel = channel; payload = payload })

pub record KeepAliveServerbound : Type 0 where
  pub id : ℕ

unfoldable pub decode_keep_alive_serverbound : Read KeepAliveServerbound
decode_keep_alive_serverbound = do id ← long; pure (record { id = id })

pub record KnownPack : Type 0 where
  pub namespace : List ℕ
  pub id : List ℕ
  pub version : List ℕ

unfoldable pub known_pack : Read KnownPack
known_pack = do
  namespace ← identifier
  id ← string 0
  version ← string 0
  pure (record { namespace = namespace; id = id; version = version })

-- The loop of `KnownPacksServerbound.Decode`: the entry of a failed read is kept too.
unfoldable pub known_packs : ℕ → Read (List KnownPack)
known_packs zero = pure []
known_packs (suc n) = do
  pack ← known_pack
  packs ← if_failed [] (known_packs n)
  pure (pack ∷ packs)

pub record KnownPacksServerbound : Type 0 where
  pub packs : List KnownPack

unfoldable pub decode_known_packs : Read KnownPacksServerbound
decode_known_packs = do
  n ← var_int
  packs ← if_failed [] (when is_negative n then pure [] else known_packs n)
  pure (record { packs = packs })
