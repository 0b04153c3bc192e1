-- ===== src/Session/Handle.antt =====
-- internal/net/session/session.go: one packet body, and the read loop over those that arrive.
use gomc.Prelude.{ℕ, ◌&&◌, List, [], ◌∷◌, Option, none, some, replicate, false}
use gomc.Codec.Reader
use gomc.Codec.Reader.{new_reader, var_int}
use gomc.Frame.Conn.{new_conn}
use gomc.Packet.Registry.{State, Kind, Packet, decode, new_serverbound, serverbound}
use gomc.Session.State.{Deps, Session, SessionError, Act, HubRequest, ◌>>◌, done, branch, request}
use gomc.Session.State.{reading}
use gomc.Session.Login
use gomc.Session.Login.{to_state}
use gomc.Session.Play

-- The type switch. Every type that is registered has a case, so its default is never reached.
unfoldable pub dispatch : Deps → Packet → Act
dispatch d (Packet.handshake p) = Login.on_handshake p
dispatch d Packet.status_request = Login.on_status_request d
dispatch d (Packet.status_ping p) = Login.on_status_ping d p
dispatch d (Packet.login_start p) = Login.on_login_start d p
dispatch d (Packet.encryption_response p) = Login.on_encryption_response d p
dispatch d Packet.login_acknowledged = Login.on_login_acknowledged d
dispatch d (Packet.client_information p) = done
dispatch d (Packet.plugin_message p) = done
dispatch d (Packet.known_packs p) = Login.on_known_packs d
dispatch d (Packet.keep_alive p) = done
dispatch d Packet.ack_finish_configuration = to_state State.play >> Play.enter_play d
dispatch d (Packet.confirm_teleport p) = done
dispatch d Packet.player_loaded = done
dispatch d (Packet.move_player_pos p) = Play.on_move_pos d p
dispatch d (Packet.move_player_pos_rot p) = Play.on_move_pos_rot d p
dispatch d (Packet.move_player_rot p) = Play.on_move_rot d p
dispatch d (Packet.chat_message p) = Play.on_chat d p
dispatch d (Packet.player_action p) = Play.on_player_action d p
dispatch d (Packet.set_carried_item p) = Play.on_carried_item p
dispatch d (Packet.set_creative_mode_slot p) = Play.on_creative_slot p
dispatch d (Packet.use_item_on p) = Play.on_use_item_on d p

-- `if r.Err() != nil { return r.Err() }`, and what follows.
unfoldable pub unless_err : Reader.Reader → Act → Act
unless_err r k s = elim r.err [ none ↦ k s | some e ↦ (some (SessionError.decoding e), s) ]

-- The packet of a kind is decoded and handled.
unfoldable pub handle_kind : Deps → Kind → Reader.Reader → Act
handle_kind d k r = let (p, r') = decode k r in unless_err r' (dispatch d p)

-- A packet that is not registered is ignored.
unfoldable pub handle_found : Deps → Option Kind → Reader.Reader → Act
handle_found d none r = done
handle_found d (some k) r = handle_kind d k r

unfoldable pub handle : Deps → List ℕ → Act
handle d body =
    let (id, r) = var_int (new_reader body) in
    unless_err r (reading λ s. handle_found d (new_serverbound serverbound s.state id) r)

-- The loop of `Serve`, over the bodies that ReadPacket yields before its first error. The session
-- ends with them, or with the first error of `handle`.
unfoldable pub serve_loop : Deps → List (List ℕ) → Session → Session
serve_loop d [] s = s
serve_loop d (body ∷ bodies) s =
    let (e, s') = handle d body s in elim e [ none ↦ serve_loop d bodies s' | some f ↦ s' ]

unfoldable pub leave_hub : Deps → Session → Session
leave_hub d s = (branch (s.joined && d.has_hub) (request (HubRequest.leave s.entity_id)) done s).1

unfoldable pub serve : Deps → List (List ℕ) → Session → Session
serve d bodies s = leave_hub d (serve_loop d bodies s)

-- A session on a connection that has `unread` to come.
unfoldable pub new_session : List ℕ → Session
new_session unread = record {
  conn = new_conn unread;
  state = State.handshaking;
  username = [];
  uuid = replicate 16 0;
  properties = [];
  verify_token = [];
  entity_id = 0;
  chunk_x = 0;
  chunk_z = 0;
  loaded = [];
  joined = false;
  pos_x = 0;
  pos_y = 0;
  pos_z = 0;
  yaw = 0;
  pitch = 0;
  on_ground = false;
  hotbar = replicate 9 0;
  selected_slot = 0;
  sent = [];
  requests = [];
}
