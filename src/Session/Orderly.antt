-- ===== src/Session/Orderly.antt =====
-- No handler of a session with a key pair ends in a run-time panic; without one, some do.
use gomc.Prelude.{
  ℕ, ◌≡◌, refl, ◌+◌, ◌-◌, ◌%◌, ◌^◌, ◌<◌, arith, List, [], ◌∷◌, length, false, true, Option,
}
use gomc.Prelude.{none, some, ltb, lt→ltb, inl, inr, Bool-cases, Option-cases, ◌||◌, not}
use gomc.Codec.Reader
use gomc.Frame.Conn
use gomc.Packet.Registry.{Packet, Kind, decode}
use gomc.Packet.Joining.{LoginStart, EncryptionResponse}
use gomc.Packet.Playing.{SetCreativeModeSlot, UseItemOn}
use gomc.Packet.Sent.Configuration.{RegistryData}
use gomc.Session.State.{Deps, Session, HubRequest, branch, reading, panics, Act, done}
use gomc.Session.Login
use gomc.Session.Play
use gomc.Session.Chunks
use gomc.Session.Handle.{
  dispatch, handle, handle_found, handle_kind, unless_err, serve_loop, new_session,
}
use gomc.Session.Calm.{
  Calm, calm_rules, Any, Any-Keeps, Any-Calm, done-Calm, then-Calm, reading-Calm,
}
use gomc.Session.Deaf.{any_send-Keeps}
use gomc.Session.Hotbar.{IsArmed, IsArmed-Deaf, serve_loop-IsArmed}

module _ (d : Deps) where
  load_columns-Calm : (keys : List (ℕ × ℕ)) → Calm Any (Chunks.load_columns d keys)
  unfolding Chunks.load_columns Chunks.load_column
  load_columns-Calm [] = done-Calm Any
  load_columns-Calm ((x, z) ∷ keys) =
      then-Calm Any _ _ (Any-Keeps _) (search (calm_rules, Any-Keeps) depth 12)
        (load_columns-Calm keys)

  unload_columns-Calm : (want keys : List (ℕ × ℕ)) → Calm Any (Chunks.unload_columns d want keys)
  unfolding Chunks.unload_columns Chunks.unload_column
  unload_columns-Calm want [] = done-Calm Any
  unload_columns-Calm want ((x, z) ∷ keys) =
      then-Calm Any _ _ (Any-Keeps _) (search (calm_rules, Any-Keeps) depth 12)
        (unload_columns-Calm want keys)

  update_chunks-Calm : (cx cz : ℕ) → Calm Any (Chunks.update_chunks d cx cz)
  unfolding Chunks.update_chunks Chunks.stream panics
  update_chunks-Calm cx cz =
      search (calm_rules, Any-Keeps, load_columns-Calm, unload_columns-Calm) depth 16

  encrypted-Calm : (r : Conn.Result (Unit {0} × Conn.Conn)) → Calm Any (Login.encrypted r)
  unfolding Login.encrypted panics
  encrypted-Calm (Conn.err e) = search calm_rules
  encrypted-Calm (Conn.ok (u, c)) = search calm_rules

  finish_login-Calm : Calm Any (Login.finish_login d)
  unfolding Login.finish_login Login.set_compression Login.send_success
  finish_login-Calm = search (calm_rules, Any-Keeps) depth 12

  send_registries-Calm : (rds : List RegistryData) → Calm Any (Login.send_registries d rds)
  unfolding Login.send_registries
  send_registries-Calm [] = done-Calm Any
  send_registries-Calm (rd ∷ rds) =
      then-Calm Any _ _ (Any-Keeps _) (search calm_rules) (send_registries-Calm rds)

  enter_configuration-Calm : Calm Any (Login.enter_configuration d)
  unfolding Login.enter_configuration
  enter_configuration-Calm = search (calm_rules, Any-Keeps) depth 12

  enter_play-Calm : Calm Any (Play.enter_play d)
  unfolding Play.enter_play Play.announce Play.join_hub
  enter_play-Calm = search (calm_rules, Any-Keeps, update_chunks-Calm) depth 16

  ask_hub-Calm : (q : Session → HubRequest) → Calm Any (Play.ask_hub d q)
  unfolding Play.ask_hub
  ask_hub-Calm q = search calm_rules depth 12

  handle_move-Calm : Calm Any (Play.handle_move d)
  unfolding Play.handle_move
  handle_move-Calm =
      then-Calm Any _ _ (Any-Keeps _) (ask_hub-Calm _) (search (calm_rules, update_chunks-Calm))

  place_held-Calm : (p : UseItemOn) (item : ℕ) → Calm Any (Play.place_held d p item)
  unfolding Play.place_held Play.place_request
  place_held-Calm p item = search calm_rules depth 12

  -- What reads an index that is one.
  indexed-Calm :
      (i : ℕ) (m : Act) (s : Session)
      → i < length s.hotbar
      → Calm Any m
      → panics (Play.indexed i m s).0 ≡ false
  unfolding Play.indexed reading branch
  indexed-Calm i m s within h = rw (lt→ltb i (length s.hotbar) within) (h.calm s tt)

  slot-within :
      (slot : ℕ) → (ltb slot 36 || ltb 44 slot) ≡ false → (slot + (2 ^ 16 - 36)) % 2 ^ 16 < 9
  slot-within slot h = ground arith

  on_creative_slot-Calm : (p : SetCreativeModeSlot) → Calm IsArmed (Play.on_creative_slot p)
  unfolding Play.on_creative_slot Play.put_in_hotbar branch done panics
  on_creative_slot-Calm p = record {
    calm = λ s h. elim (Bool-cases (ltb p.slot 36 || ltb 44 p.slot)) [
      | inl e ↦ rw e refl
      | inr e ↦ rw e (indexed-Calm _ _ s (rw h.0 (slot-within p.slot e)) (search calm_rules))
    ];
  }

  held-Calm :
      (p : UseItemOn)
      → Calm IsArmed (
          reading λ s.
            branch
              (not s.joined || not d.has_hub)
              done
              (Play.indexed s.selected_slot (Play.place_held d p (Play.held_item s))))
  unfolding reading branch done panics
  held-Calm p = record {
    calm = λ s h. elim (Bool-cases (not s.joined || not d.has_hub)) [
      | inl e ↦ rw e refl
      | inr e ↦ rw e (indexed-Calm _ _ s (rw h.0 h.1) (place_held-Calm p _))
    ];
  }

  on_use_item_on-Calm : (p : UseItemOn) → Calm IsArmed (Play.on_use_item_on d p)
  unfolding Play.on_use_item_on
  on_use_item_on-Calm p =
      then-Calm IsArmed _ _ (any_send-Keeps IsArmed IsArmed-Deaf d _) (search calm_rules)
        (held-Calm p)

-- With a key pair.
module _ (d : Deps) (keyed : d.has_key_pair ≡ true) where
  with_key_pair-Calm : (m : Act) → Calm Any m → Calm Any (Login.with_key_pair d m)
  unfolding Login.with_key_pair branch
  with_key_pair-Calm m h = record { calm = λ s p. rw keyed (h.calm s p) }

  on_login_start-Calm : (p : LoginStart) → Calm Any (Login.on_login_start d p)
  unfolding Login.on_login_start Login.begin_encryption panics
  on_login_start-Calm p =
      search (calm_rules, Any-Keeps, with_key_pair-Calm, finish_login-Calm) depth 16

  on_encryption_response-Calm :
      (p : EncryptionResponse) → Calm Any (Login.on_encryption_response d p)
  unfolding Login.on_encryption_response Login.decrypt_response Login.check_token Login.encrypt
      Login.verify_join Login.adopt panics
  on_encryption_response-Calm p =
      search (calm_rules, Any-Keeps, with_key_pair-Calm, finish_login-Calm, encrypted-Calm) depth 20

  dispatch-Calm : (p : Packet) → Calm IsArmed (dispatch d p)
  unfolding dispatch Login.on_handshake Login.on_status_request Login.on_status_ping
      Login.on_login_acknowledged Login.on_known_packs Play.on_move_pos Play.on_move_pos_rot
      Play.on_move_rot Play.on_chat Play.on_player_action Play.on_carried_item panics
  dispatch-Calm (Packet.handshake p) = search calm_rules depth 12
  dispatch-Calm Packet.status_request = search calm_rules depth 12
  dispatch-Calm (Packet.status_ping p) =
      Any-Calm IsArmed _ (search (calm_rules, Any-Keeps) depth 12)
  dispatch-Calm (Packet.login_start p) = Any-Calm IsArmed _ (on_login_start-Calm p)
  dispatch-Calm (Packet.encryption_response p) = Any-Calm IsArmed _ (on_encryption_response-Calm p)
  dispatch-Calm Packet.login_acknowledged =
      Any-Calm IsArmed _ (search (calm_rules, Any-Keeps, enter_configuration-Calm) depth 12)
  dispatch-Calm (Packet.client_information p) = done-Calm IsArmed
  dispatch-Calm (Packet.plugin_message p) = done-Calm IsArmed
  dispatch-Calm (Packet.known_packs p) =
      Any-Calm IsArmed _ (search (calm_rules, Any-Keeps, send_registries-Calm) depth 12)
  dispatch-Calm (Packet.keep_alive p) = done-Calm IsArmed
  dispatch-Calm Packet.ack_finish_configuration =
      Any-Calm IsArmed _ (search (calm_rules, Any-Keeps, enter_play-Calm) depth 12)
  dispatch-Calm (Packet.confirm_teleport p) = done-Calm IsArmed
  dispatch-Calm Packet.player_loaded = done-Calm IsArmed
  dispatch-Calm (Packet.move_player_pos p) =
      Any-Calm IsArmed _ (search (calm_rules, Any-Keeps, handle_move-Calm) depth 12)
  dispatch-Calm (Packet.move_player_pos_rot p) =
      Any-Calm IsArmed _ (search (calm_rules, Any-Keeps, handle_move-Calm) depth 12)
  dispatch-Calm (Packet.move_player_rot p) =
      Any-Calm IsArmed _ (search (calm_rules, Any-Keeps, handle_move-Calm) depth 12)
  dispatch-Calm (Packet.chat_message p) = Any-Calm IsArmed _ (ask_hub-Calm d _)
  dispatch-Calm (Packet.player_action p) =
      Any-Calm IsArmed _ (search (calm_rules, Any-Keeps, ask_hub-Calm) depth 12)
  dispatch-Calm (Packet.set_carried_item p) = search calm_rules depth 12
  dispatch-Calm (Packet.set_creative_mode_slot p) = on_creative_slot-Calm d p
  dispatch-Calm (Packet.use_item_on p) = on_use_item_on-Calm d p

unless_err-Calm : (r : Reader.Reader) (k : Act) → Calm IsArmed k → Calm IsArmed (unless_err r k)
unfolding unless_err panics
unless_err-Calm r k h = record {
  calm = λ s armed. elim (Option-cases r.err) [
    | inl e ↦ rw e (h.calm s armed)
    | inr (f, e) ↦ rw e refl
  ];
}

module _ (d : Deps) (keyed : d.has_key_pair ≡ true) where
  handle_found-Calm : (o : Option Kind) (r : Reader.Reader) → Calm IsArmed (handle_found d o r)
  unfolding handle_found handle_kind
  handle_found-Calm none r = done-Calm IsArmed
  handle_found-Calm (some k) r = unless_err-Calm _ _ (dispatch-Calm d keyed (decode k r).0)

  handle-Calm : (body : List ℕ) → Calm IsArmed (handle d body)
  unfolding handle
  handle-Calm body = unless_err-Calm _ _ (reading-Calm IsArmed _ λ s. handle_found-Calm _ _)

  -- In a session that has a key pair, whatever bodies have arrived before, the handling of the next
  -- one does not end in a run-time panic: no index of the hotbar is out of range, and nothing is
  -- read of a nil key pair.
  pub handle-panics :
      (unread : List ℕ) (bodies : List (List ℕ)) (body : List ℕ)
      → panics (handle d body (serve_loop d bodies (new_session unread))).0 ≡ false
  handle-panics unread bodies body = (handle-Calm body).calm _ (serve_loop-IsArmed d unread bodies)
