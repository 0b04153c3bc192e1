-- ===== src/Packet/Registry.antt =====
-- internal/protocol/packet/packet.go, and the `init` functions that fill the table of serverbound
-- packets. A factory is the constructor of `Kind` that names its packet; the nested maps are one
-- function, a missing key is `none`.
use gomc.Prelude.{ℕ, ◌==◌, List, [], ◌∷◌, Option, none, some, ◌&&◌, if◌then◌else◌}
use gomc.Codec.Reader.{Read, ◌>>=◌, pure}
use gomc.Packet.Joining
use gomc.Packet.Playing

pub data State : Type 0 where
  handshaking status login configuration play : State

-- The value of the constant.
abbrev pub state_code : State → ℕ
state_code State.handshaking = 0
state_code State.status = 1
state_code State.login = 2
state_code State.configuration = 3
state_code State.play = 4

pub data Kind : Type 0 where
  handshake status_request status_ping : Kind
  login_start encryption_response login_acknowledged : Kind
  client_information plugin_message ack_finish_configuration keep_alive known_packs : Kind
  confirm_teleport player_loaded move_player_pos move_player_pos_rot move_player_rot : Kind
  chat_message player_action use_item_on set_carried_item set_creative_mode_slot : Kind

pub data Packet : Type 0 where
  status_request login_acknowledged ack_finish_configuration player_loaded : Packet
  handshake : Joining.Handshake → Packet
  status_ping : Joining.StatusPing → Packet
  login_start : Joining.LoginStart → Packet
  encryption_response : Joining.EncryptionResponse → Packet
  client_information : Joining.ClientInformation → Packet
  plugin_message : Joining.PluginMessageServerbound → Packet
  keep_alive : Joining.KeepAliveServerbound → Packet
  known_packs : Joining.KnownPacksServerbound → Packet
  confirm_teleport : Playing.ConfirmTeleport → Packet
  move_player_pos : Playing.MovePlayerPos → Packet
  move_player_pos_rot : Playing.MovePlayerPosRot → Packet
  move_player_rot : Playing.MovePlayerRot → Packet
  chat_message : Playing.ChatMessage → Packet
  player_action : Playing.PlayerAction → Packet
  use_item_on : Playing.UseItemOn → Packet
  set_carried_item : Playing.SetCarriedItem → Packet
  set_creative_mode_slot : Playing.SetCreativeModeSlot → Packet

-- `Decode` of the packet that a factory makes.
unfoldable pub decode : Kind → Read Packet
decode Kind.handshake = do p ← Joining.decode_handshake; pure (Packet.handshake p)
decode Kind.status_request = pure Packet.status_request
decode Kind.status_ping = do p ← Joining.decode_status_ping; pure (Packet.status_ping p)
decode Kind.login_start = do p ← Joining.decode_login_start; pure (Packet.login_start p)
decode Kind.encryption_response = do
  p ← Joining.decode_encryption_response
  pure (Packet.encryption_response p)
decode Kind.login_acknowledged = pure Packet.login_acknowledged
decode Kind.client_information = do
  p ← Joining.decode_client_information
  pure (Packet.client_information p)
decode Kind.plugin_message = do
  p ← Joining.decode_plugin_message_serverbound
  pure (Packet.plugin_message p)
decode Kind.ack_finish_configuration = pure Packet.ack_finish_configuration
decode Kind.keep_alive = do p ← Joining.decode_keep_alive_serverbound; pure (Packet.keep_alive p)
decode Kind.known_packs = do p ← Joining.decode_known_packs; pure (Packet.known_packs p)
decode Kind.confirm_teleport = do
  p ← Playing.decode_confirm_teleport
  pure (Packet.confirm_teleport p)
decode Kind.player_loaded = pure Packet.player_loaded
decode Kind.move_player_pos = do p ← Playing.decode_move_player_pos; pure (Packet.move_player_pos p)
decode Kind.move_player_pos_rot = do
  p ← Playing.decode_move_player_pos_rot
  pure (Packet.move_player_pos_rot p)
decode Kind.move_player_rot = do p ← Playing.decode_move_player_rot; pure (Packet.move_player_rot p)
decode Kind.chat_message = do p ← Playing.decode_chat_message; pure (Packet.chat_message p)
decode Kind.player_action = do p ← Playing.decode_player_action; pure (Packet.player_action p)
decode Kind.use_item_on = do p ← Playing.decode_use_item_on; pure (Packet.use_item_on p)
decode Kind.set_carried_item = do
  p ← Playing.decode_set_carried_item
  pure (Packet.set_carried_item p)
decode Kind.set_creative_mode_slot = do
  p ← Playing.decode_set_creative_mode_slot
  pure (Packet.set_creative_mode_slot p)

abbrev pub Table : Type 0
Table = State → ℕ → Option Kind

-- `none` is the panic on a duplicate.
unfoldable pub register_serverbound : State → ℕ → Kind → Table → Option Table
register_serverbound s id f t = elim (t s id) [
  | some dup ↦ none
  | none ↦ some λ s' id'. if state_code s' == state_code s && (id' == id) then some f else t s' id'
]

unfoldable pub new_serverbound : Table → State → ℕ → Option Kind
new_serverbound t s id = t s id

pub record Registration : Type 0 where
  pub state : State
  pub id : ℕ
  pub factory : Kind

abbrev entry : State → ℕ → Kind → Registration
entry s id f = record { state = s; id = id; factory = f }

unfoldable pub register_all : List Registration → Option Table → Option Table
register_all [] t = t
register_all (r ∷ rs) none = none
register_all (r ∷ rs) (some t) = register_all rs (register_serverbound r.state r.id r.factory t)

-- The calls of the `init` functions, in the order of the files.
abbrev pub registrations : List Registration
registrations =
    entry State.configuration 0x00 Kind.client_information
    ∷ entry State.configuration 0x02 Kind.plugin_message
    ∷ entry State.configuration 0x03 Kind.ack_finish_configuration
    ∷ entry State.configuration 0x04 Kind.keep_alive
    ∷ entry State.configuration 0x07 Kind.known_packs
    ∷ entry State.handshaking 0x00 Kind.handshake
    ∷ entry State.login 0x00 Kind.login_start
    ∷ entry State.login 0x01 Kind.encryption_response
    ∷ entry State.login 0x03 Kind.login_acknowledged
    ∷ entry State.play 0x29 Kind.player_action
    ∷ entry State.play 0x42 Kind.use_item_on
    ∷ entry State.play 0x38 Kind.set_creative_mode_slot
    ∷ entry State.play 0x35 Kind.set_carried_item
    ∷ entry State.play 0x00 Kind.confirm_teleport
    ∷ entry State.play 0x0e Kind.client_information
    ∷ entry State.play 0x1c Kind.keep_alive
    ∷ entry State.play 0x1e Kind.move_player_pos
    ∷ entry State.play 0x1f Kind.move_player_pos_rot
    ∷ entry State.play 0x20 Kind.move_player_rot
    ∷ entry State.play 0x2c Kind.player_loaded
    ∷ entry State.play 0x09 Kind.chat_message
    ∷ entry State.status 0x00 Kind.status_request
    ∷ entry State.status 0x01 Kind.status_ping
    ∷ []

abbrev pub empty_table : Table
empty_table s id = none

-- The table after start-up.
unfoldable pub serverbound : Table
serverbound = elim (register_all registrations (some empty_table)) [
  | none ↦ empty_table
  | some t ↦ t
]
