-- ===== src/Session/Hotbar.antt =====
-- The hotbar keeps its nine slots and the selected one among them.
use gomc.Prelude.{ℕ, ◌<◌, ◌≡◌, refl, arith, List, length, false, ltb, ltb→lt, length-set}
use gomc.Prelude.{inl, inr, Bool-cases}
use gomc.Packet.Registry.{Packet}
use gomc.Packet.Playing.{SetCarriedItem, SetCreativeModeSlot}
use gomc.Packet.Joining.{Handshake}
use gomc.Session.State.{Deps, Session, modify, branch, done}
use gomc.Session.Login
use gomc.Session.Play
use gomc.Session.Handle.{dispatch, serve_loop, new_session}
use gomc.Session.Keeps.{Keeps, keeps_rules, then-Keeps}
use gomc.Session.Blind.{Blind, dispatch-Keeps, is_special, enter_configuration-Keeps, request-Keeps}
use gomc.Session.Dispatched.{handle-case}
use gomc.Session.Deaf.{Deaf, any_send-Keeps, any_update_chunks-Keeps}
use gomc.Session.Serving.{serve_loop-Keeps}

abbrev pub IsArmed : Session → Type 0
IsArmed s = (length s.hotbar ≡ 9) × (s.selected_slot < 9)

IsArmed-Blind : Blind IsArmed
IsArmed-Blind = record {
  sent = λ s c p plain h. h;
  conn = λ s c h. h;
  requested = λ s q h. h;
  profile = λ s name uuid token ps h. h;
  moved = λ s x y z yaw pitch g h. h;
}

pub IsArmed-Deaf : Deaf IsArmed
IsArmed-Deaf = record { sent = λ s c p h. h; loaded = λ s ks h. h; centred = λ s x z h. h }

module _ (d : Deps) where
  on_handshake-IsArmed : (p : Handshake) → Keeps IsArmed (Login.on_handshake p)
  unfolding Login.on_handshake
  on_handshake-IsArmed p = search keeps_rules depth 12

  acknowledged-IsArmed : Keeps IsArmed (Login.on_login_acknowledged d)
  unfolding Login.on_login_acknowledged
  acknowledged-IsArmed =
      then-Keeps IsArmed _ _ (search keeps_rules)
        (enter_configuration-Keeps IsArmed IsArmed-Blind d)

  start_play-IsArmed : (s : Session) → IsArmed s → IsArmed (Play.start_play d s)
  unfolding Play.start_play
  start_play-IsArmed s h = (refl, h.1)

  enter_play-IsArmed : Keeps IsArmed (Play.enter_play d)
  unfolding Play.enter_play Play.announce Play.reset_view Play.at_spawn Play.join_hub
  enter_play-IsArmed =
      search
        (
          keeps_rules,
          start_play-IsArmed,
          any_send-Keeps IsArmed IsArmed-Deaf d,
          any_update_chunks-Keeps IsArmed IsArmed-Deaf d,
          request-Keeps IsArmed IsArmed-Blind d,
        )
        depth 16

  on_carried_item-IsArmed : (p : SetCarriedItem) → Keeps IsArmed (Play.on_carried_item p)
  unfolding Play.on_carried_item branch modify done
  on_carried_item-IsArmed p = record {
    keeps = λ s h. elim (Bool-cases (ltb p.slot 9)) [
      | inl e ↦ rw e (h.0, ltb→lt p.slot 9 e)
      | inr e ↦ rw e h
    ];
  }

  on_creative_slot-IsArmed : (p : SetCreativeModeSlot) → Keeps IsArmed (Play.on_creative_slot p)
  unfolding Play.on_creative_slot Play.put_in_hotbar Play.indexed
  on_creative_slot-IsArmed p = search (keeps_rules, length-set) depth 12

  plain-IsArmed : (p : Packet) → is_special p ≡ false → Keeps IsArmed (dispatch d p)
  plain-IsArmed p plain =
      dispatch-Keeps IsArmed IsArmed-Blind d p plain
        (λ e. any_update_chunks-Keeps IsArmed IsArmed-Deaf d)

  dispatch-IsArmed : (p : Packet) → Keeps IsArmed (dispatch d p)
  unfolding dispatch
  dispatch-IsArmed (Packet.handshake p) = on_handshake-IsArmed p
  dispatch-IsArmed Packet.login_acknowledged = acknowledged-IsArmed
  dispatch-IsArmed Packet.ack_finish_configuration =
      then-Keeps IsArmed _ _ (search keeps_rules) enter_play-IsArmed
  dispatch-IsArmed (Packet.set_carried_item p) = on_carried_item-IsArmed p
  dispatch-IsArmed (Packet.set_creative_mode_slot p) = on_creative_slot-IsArmed p
  dispatch-IsArmed Packet.status_request = plain-IsArmed Packet.status_request refl
  dispatch-IsArmed Packet.player_loaded = plain-IsArmed Packet.player_loaded refl
  dispatch-IsArmed (Packet.status_ping p) = plain-IsArmed (Packet.status_ping p) refl
  dispatch-IsArmed (Packet.login_start p) = plain-IsArmed (Packet.login_start p) refl
  dispatch-IsArmed (Packet.encryption_response p) =
      plain-IsArmed (Packet.encryption_response p) refl
  dispatch-IsArmed (Packet.client_information p) = plain-IsArmed (Packet.client_information p) refl
  dispatch-IsArmed (Packet.plugin_message p) = plain-IsArmed (Packet.plugin_message p) refl
  dispatch-IsArmed (Packet.known_packs p) = plain-IsArmed (Packet.known_packs p) refl
  dispatch-IsArmed (Packet.keep_alive p) = plain-IsArmed (Packet.keep_alive p) refl
  dispatch-IsArmed (Packet.confirm_teleport p) = plain-IsArmed (Packet.confirm_teleport p) refl
  dispatch-IsArmed (Packet.chat_message p) = plain-IsArmed (Packet.chat_message p) refl
  dispatch-IsArmed (Packet.player_action p) = plain-IsArmed (Packet.player_action p) refl
  dispatch-IsArmed (Packet.use_item_on p) = plain-IsArmed (Packet.use_item_on p) refl
  dispatch-IsArmed (Packet.move_player_pos p) = plain-IsArmed (Packet.move_player_pos p) refl
  dispatch-IsArmed (Packet.move_player_pos_rot p) =
      plain-IsArmed (Packet.move_player_pos_rot p) refl
  dispatch-IsArmed (Packet.move_player_rot p) = plain-IsArmed (Packet.move_player_rot p) refl

  -- Ever after.
  pub serve_loop-IsArmed :
      (unread : List ℕ) (bodies : List (List ℕ))
      → IsArmed (serve_loop d bodies (new_session unread))
  unfolding new_session
  serve_loop-IsArmed unread bodies =
      serve_loop-Keeps d IsArmed (λ s q h. h)
        (λ s body h. handle-case d s IsArmed h (λ p at. (dispatch-IsArmed p).keeps s h) body) bodies
        (new_session unread) (refl, omega arith)
