-- ===== src/Session/Blind.antt =====
-- The handlers that keep every property which does not look at the connection, the profile and the
-- position of a session.
use gomc.Prelude.{refl, ℕ, ◌≡◌, List, [], ◌∷◌, Bool, true, false, inl, inr, Bool-cases}
use mathlib.Core.Bool.{true≢false}
use gomc.Frame.Conn
use gomc.Packet.Registry.{Packet}
use gomc.Packet.Clientbound.{Clientbound}
use gomc.Packet.Sent.Configuration.{RegistryData}
use gomc.Packet.Sent.Login.{LoginProperty}
use gomc.Packet.Joining.{StatusPing, LoginStart, EncryptionResponse}
use gomc.Packet.Playing.{PlayerAction, UseItemOn, ChatMessage, MovePlayerPos, MovePlayerPosRot}
use gomc.Packet.Playing.{MovePlayerRot}
use gomc.Session.State.{Deps, Session, HubRequest, send, request}
use gomc.Session.Chunks.{update_chunks}
use gomc.Session.Login
use gomc.Session.Play
use gomc.Session.Handle.{dispatch}
use gomc.Session.Keeps.{Keeps, keeps_rules, done-Keeps, then-Keeps}

-- A packet that loads or unloads a column.
abbrev pub is_column : Clientbound → Bool
is_column (Clientbound.chunk_data p) = true
is_column (Clientbound.unload_chunk p) = true
is_column _ = false

pub record Blind (P : Session → Type 0) : Type 0 where
  pub sent :
      (s : Session) (c : Conn.Conn) (p : Clientbound)
      → is_column p ≡ false
      → P s
      → P (record s { conn = c; sent = p ∷ s.sent })
  pub conn : (s : Session) (c : Conn.Conn) → P s → P (record s { conn = c })
  pub requested : (s : Session) (q : HubRequest) → P s → P (record s { requests = q ∷ s.requests })
  pub profile :
      (s : Session) (name uuid token : List ℕ) (ps : List LoginProperty)
      → P s
      → P (record s { username = name; uuid = uuid; verify_token = token; properties = ps })
  pub moved :
      (s : Session) (x y z yaw pitch : ℕ) (g : Bool)
      → P s
      → P (record s { pos_x = x; pos_y = y; pos_z = z; yaw = yaw; pitch = pitch; on_ground = g })

-- The packets that change the state of the session or what is in hand.
abbrev pub is_special : Packet → Bool
is_special (Packet.handshake p) = true
is_special Packet.login_acknowledged = true
is_special Packet.ack_finish_configuration = true
is_special (Packet.set_carried_item p) = true
is_special (Packet.set_creative_mode_slot p) = true
is_special _ = false

module _ (P : Session → Type 0) (blind : Blind P) (d : Deps) where
  pub send-Keeps : (p : Clientbound) → is_column p ≡ false → Keeps P (send d p)
  unfolding send
  send-Keeps p plain = record {
    keeps = λ s h. elim (Bool-cases (d.accepts s.conn)) [
      | inl e ↦ rw e (blind.sent s _ p plain h)
      | inr e ↦ rw e h
    ];
  }

  pub request-Keeps : (q : HubRequest) → Keeps P (request q)
  unfolding request
  request-Keeps q = record { keeps = λ s. blind.requested s q }

  encrypted-Keeps : (r : Conn.Result (Unit {0} × Conn.Conn)) → Keeps P (Login.encrypted r)
  unfolding Login.encrypted
  encrypted-Keeps (Conn.err e) = search keeps_rules
  encrypted-Keeps (Conn.ok (u, c)) = search (keeps_rules, blind.conn)

  finish_login-Keeps : Keeps P (Login.finish_login d)
  unfolding Login.finish_login Login.set_compression Login.send_success
  finish_login-Keeps = search (keeps_rules, send-Keeps, blind.conn) depth 12

  begin_encryption-Keeps : Keeps P (Login.begin_encryption d)
  unfolding Login.begin_encryption Login.with_key_pair
  begin_encryption-Keeps = search (keeps_rules, send-Keeps, blind.profile) depth 12

  on_login_start-Keeps : (p : LoginStart) → Keeps P (Login.on_login_start d p)
  unfolding Login.on_login_start
  on_login_start-Keeps p =
      search (keeps_rules, finish_login-Keeps, begin_encryption-Keeps, blind.profile) depth 12

  on_encryption_response-Keeps :
      (p : EncryptionResponse) → Keeps P (Login.on_encryption_response d p)
  unfolding Login.on_encryption_response Login.with_key_pair Login.decrypt_response
      Login.check_token Login.encrypt Login.verify_join Login.adopt
  on_encryption_response-Keeps p =
      search (keeps_rules, finish_login-Keeps, encrypted-Keeps, blind.profile) depth 16

  pub enter_configuration-Keeps : Keeps P (Login.enter_configuration d)
  unfolding Login.enter_configuration
  enter_configuration-Keeps = search (keeps_rules, send-Keeps) depth 12

  send_registries-Keeps : (rds : List RegistryData) → Keeps P (Login.send_registries d rds)
  unfolding Login.send_registries
  send_registries-Keeps [] = done-Keeps P
  send_registries-Keeps (rd ∷ rds) =
      then-Keeps P _ _ (search send-Keeps) (send_registries-Keeps rds)

  on_known_packs-Keeps : Keeps P (Login.on_known_packs d)
  unfolding Login.on_known_packs
  on_known_packs-Keeps = search (keeps_rules, send-Keeps, send_registries-Keeps) depth 12

  on_status_request-Keeps : Keeps P (Login.on_status_request d)
  unfolding Login.on_status_request
  on_status_request-Keeps = search (keeps_rules, send-Keeps) depth 12

  on_status_ping-Keeps : (p : StatusPing) → Keeps P (Login.on_status_ping d p)
  unfolding Login.on_status_ping
  on_status_ping-Keeps p = search (keeps_rules, send-Keeps) depth 12

  ask_hub-Keeps : (q : Session → HubRequest) → Keeps P (Play.ask_hub d q)
  unfolding Play.ask_hub
  ask_hub-Keeps q = search (keeps_rules, request-Keeps) depth 12

  pub join_hub-Keeps :
      ((s : Session) → P s → P (record s { joined = true })) → Keeps P Play.join_hub
  unfolding Play.join_hub
  join_hub-Keeps h = search (keeps_rules, request-Keeps, h) depth 12

  on_player_action-Keeps : (p : PlayerAction) → Keeps P (Play.on_player_action d p)
  unfolding Play.on_player_action
  on_player_action-Keeps p = search (keeps_rules, send-Keeps, ask_hub-Keeps) depth 12

  place_held-Keeps : (p : UseItemOn) (item : ℕ) → Keeps P (Play.place_held d p item)
  unfolding Play.place_held Play.place_request
  place_held-Keeps p item = search (keeps_rules, request-Keeps) depth 12

  on_use_item_on-Keeps : (p : UseItemOn) → Keeps P (Play.on_use_item_on d p)
  unfolding Play.on_use_item_on Play.indexed
  on_use_item_on-Keeps p = search (keeps_rules, send-Keeps, place_held-Keeps) depth 12

  on_chat-Keeps : (p : ChatMessage) → Keeps P (Play.on_chat d p)
  unfolding Play.on_chat
  on_chat-Keeps p = ask_hub-Keeps _

-- With a property that the streaming of columns keeps too.
module _ (P : Session → Type 0) (blind : Blind P) (d : Deps)
    (stream : (cx cz : ℕ) → Keeps P (update_chunks d cx cz)) where
  handle_move-Keeps : Keeps P (Play.handle_move d)
  unfolding Play.handle_move
  handle_move-Keeps = then-Keeps P _ _ (ask_hub-Keeps P blind d _) (search (keeps_rules, stream))

  on_move_pos-Keeps : (p : MovePlayerPos) → Keeps P (Play.on_move_pos d p)
  unfolding Play.on_move_pos
  on_move_pos-Keeps p = search (keeps_rules, handle_move-Keeps, blind.moved)

  on_move_pos_rot-Keeps : (p : MovePlayerPosRot) → Keeps P (Play.on_move_pos_rot d p)
  unfolding Play.on_move_pos_rot
  on_move_pos_rot-Keeps p = search (keeps_rules, handle_move-Keeps, blind.moved)

  on_move_rot-Keeps : (p : MovePlayerRot) → Keeps P (Play.on_move_rot d p)
  unfolding Play.on_move_rot
  on_move_rot-Keeps p = search (keeps_rules, handle_move-Keeps, blind.moved)

-- The packets that may stream columns.
abbrev pub is_move : Packet → Bool
is_move (Packet.move_player_pos p) = true
is_move (Packet.move_player_pos_rot p) = true
is_move (Packet.move_player_rot p) = true
is_move _ = false

module _ (P : Session → Type 0) (blind : Blind P) (d : Deps) where
  -- Every packet but those that change the state or what is in hand.
  pub dispatch-Keeps :
      (p : Packet)
      → is_special p ≡ false
      → (is_move p ≡ true → (cx cz : ℕ) → Keeps P (update_chunks d cx cz))
      → Keeps P (dispatch d p)
  unfolding dispatch
  dispatch-Keeps Packet.status_request h stream = on_status_request-Keeps P blind d
  dispatch-Keeps Packet.player_loaded h stream = done-Keeps P
  dispatch-Keeps (Packet.status_ping p) h stream = on_status_ping-Keeps P blind d p
  dispatch-Keeps (Packet.login_start p) h stream = on_login_start-Keeps P blind d p
  dispatch-Keeps (Packet.encryption_response p) h stream = on_encryption_response-Keeps P blind d p
  dispatch-Keeps (Packet.client_information p) h stream = done-Keeps P
  dispatch-Keeps (Packet.plugin_message p) h stream = done-Keeps P
  dispatch-Keeps (Packet.known_packs p) h stream = on_known_packs-Keeps P blind d
  dispatch-Keeps (Packet.keep_alive p) h stream = done-Keeps P
  dispatch-Keeps (Packet.confirm_teleport p) h stream = done-Keeps P
  dispatch-Keeps (Packet.move_player_pos p) h stream = on_move_pos-Keeps P blind d (stream refl) p
  dispatch-Keeps (Packet.move_player_pos_rot p) h stream =
      on_move_pos_rot-Keeps P blind d (stream refl) p
  dispatch-Keeps (Packet.move_player_rot p) h stream = on_move_rot-Keeps P blind d (stream refl) p
  dispatch-Keeps (Packet.chat_message p) h stream = on_chat-Keeps P blind d p
  dispatch-Keeps (Packet.player_action p) h stream = on_player_action-Keeps P blind d p
  dispatch-Keeps (Packet.use_item_on p) h stream = on_use_item_on-Keeps P blind d p
  dispatch-Keeps (Packet.handshake p) h stream = absurd (true≢false h)
  dispatch-Keeps Packet.login_acknowledged h stream = absurd (true≢false h)
  dispatch-Keeps Packet.ack_finish_configuration h stream = absurd (true≢false h)
  dispatch-Keeps (Packet.set_carried_item p) h stream = absurd (true≢false h)
  dispatch-Keeps (Packet.set_creative_mode_slot p) h stream = absurd (true≢false h)
