-- ===== src/Session/Synced.antt =====
-- The columns stay in step through every packet body, and through a whole session.
use gomc.Prelude.{ℕ, ◌≡◌, refl, sym, ap, ◌∙◌, List, true, false, ◌==◌}
use mathlib.Core.Path.{subst}
use mathlib.Core.Bool.{true≢false}
use gomc.Packet.Registry.{State, Packet, state_code}
use gomc.Session.State.{Deps, Session, ◌>>◌, modify}
use gomc.Session.Chunks
use gomc.Session.Login
use gomc.Session.Play
use gomc.Session.Handle.{dispatch, serve, new_session}
use gomc.Session.Keeps.{Keeps}
use gomc.Session.Blind.{dispatch-Keeps, is_special, is_move}
use gomc.Session.Dispatched.{fits, state_code_inj, handle-case}
use gomc.Session.View.{columns, IsViewed, IsInStep, IsBare, viewed-IsInStep, bare-IsInStep}
use gomc.Session.View.{IsInStep-IsBare, update_chunks-Keeps, enter_play-IsViewed, IsViewed-Blind}
use gomc.Session.View.{on_handshake-IsBare, acknowledged-IsBare, on_carried_item-IsViewed}
use gomc.Session.View.{on_creative_slot-IsViewed}
use gomc.Session.Serving.{serve-Keeps}

module _ (d : Deps) where
  finished-IsInStep :
      (s : Session) → IsBare s → IsInStep (dispatch d Packet.ack_finish_configuration s).1
  unfolding dispatch modify ◌>>◌
  finished-IsInStep s h =
      viewed-IsInStep State.play (Play.enter_play d (record s { state = State.play })).1
        (enter_play-IsViewed d (record s { state = State.play }) (refl, h))

  still-IsInStep :
      (p : Packet) (s : Session)
      → is_special p ≡ false
      → (is_move p ≡ true → (cx cz : ℕ) → Keeps (IsViewed s.state) (Chunks.update_chunks d cx cz))
      → IsInStep s
      → IsInStep (dispatch d p s).1
  still-IsInStep p s plain stream h =
      viewed-IsInStep s.state (dispatch d p s).1
        ((dispatch-Keeps (IsViewed s.state) (IsViewed-Blind s.state) d p plain stream).keeps s h)

  moved-IsInStep :
      (p : Packet) (s : Session)
      → is_special p ≡ false
      → (state_code s.state == 4) ≡ true
      → IsInStep s
      → IsInStep (dispatch d p s).1
  moved-IsInStep p s plain at h =
      still-IsInStep p s plain
        (λ e cx cz.
          subst (λ st. Keeps (IsViewed st) (Chunks.update_chunks d cx cz))
            (sym (state_code_inj s.state State.play at)) (update_chunks-Keeps d cx cz))
        h

  -- A session in a state other than Play.
  at_code-IsBare :
      (st : State) (s : Session)
      → (state_code s.state == state_code st) ≡ true
      → (state_code st == 4) ≡ false
      → IsInStep s
      → IsBare s
  at_code-IsBare st s at other h =
      IsInStep-IsBare s h (ap (λ t. state_code t == 4) (state_code_inj s.state st at) ∙ other)

  pub dispatch-IsInStep :
      (p : Packet) (s : Session) → fits p s.state ≡ true → IsInStep s → IsInStep (dispatch d p s).1
  dispatch-IsInStep (Packet.handshake p) s at h =
      unfold dispatch in
      bare-IsInStep (Login.on_handshake p s).1
        ((on_handshake-IsBare d p).keeps s (at_code-IsBare State.handshaking s at refl h))
  dispatch-IsInStep Packet.login_acknowledged s at h =
      unfold dispatch in
      bare-IsInStep (Login.on_login_acknowledged d s).1
        ((acknowledged-IsBare d).keeps s (at_code-IsBare State.login s at refl h))
  dispatch-IsInStep Packet.ack_finish_configuration s at h =
      finished-IsInStep s (at_code-IsBare State.configuration s at refl h)
  dispatch-IsInStep (Packet.set_carried_item p) s at h =
      unfold dispatch in
      viewed-IsInStep s.state (Play.on_carried_item p s).1
        ((on_carried_item-IsViewed d s.state p).keeps s h)
  dispatch-IsInStep (Packet.set_creative_mode_slot p) s at h =
      unfold dispatch in
      viewed-IsInStep s.state (Play.on_creative_slot p s).1
        ((on_creative_slot-IsViewed d s.state p).keeps s h)
  dispatch-IsInStep Packet.status_request s at h =
      still-IsInStep _ s refl (λ e. absurd (true≢false (sym e))) h
  dispatch-IsInStep Packet.player_loaded s at h =
      still-IsInStep _ s refl (λ e. absurd (true≢false (sym e))) h
  dispatch-IsInStep (Packet.status_ping p) s at h =
      still-IsInStep _ s refl (λ e. absurd (true≢false (sym e))) h
  dispatch-IsInStep (Packet.login_start p) s at h =
      still-IsInStep _ s refl (λ e. absurd (true≢false (sym e))) h
  dispatch-IsInStep (Packet.encryption_response p) s at h =
      still-IsInStep _ s refl (λ e. absurd (true≢false (sym e))) h
  dispatch-IsInStep (Packet.client_information p) s at h =
      still-IsInStep _ s refl (λ e. absurd (true≢false (sym e))) h
  dispatch-IsInStep (Packet.plugin_message p) s at h =
      still-IsInStep _ s refl (λ e. absurd (true≢false (sym e))) h
  dispatch-IsInStep (Packet.known_packs p) s at h =
      still-IsInStep _ s refl (λ e. absurd (true≢false (sym e))) h
  dispatch-IsInStep (Packet.keep_alive p) s at h =
      still-IsInStep _ s refl (λ e. absurd (true≢false (sym e))) h
  dispatch-IsInStep (Packet.confirm_teleport p) s at h =
      still-IsInStep _ s refl (λ e. absurd (true≢false (sym e))) h
  dispatch-IsInStep (Packet.chat_message p) s at h =
      still-IsInStep _ s refl (λ e. absurd (true≢false (sym e))) h
  dispatch-IsInStep (Packet.player_action p) s at h =
      still-IsInStep _ s refl (λ e. absurd (true≢false (sym e))) h
  dispatch-IsInStep (Packet.use_item_on p) s at h =
      still-IsInStep _ s refl (λ e. absurd (true≢false (sym e))) h
  dispatch-IsInStep (Packet.move_player_pos p) s at h = moved-IsInStep _ s refl at h
  dispatch-IsInStep (Packet.move_player_pos_rot p) s at h = moved-IsInStep _ s refl at h
  dispatch-IsInStep (Packet.move_player_rot p) s at h = moved-IsInStep _ s refl at h

  -- From a new session on, whatever bodies arrive and whichever writes fail, the columns that the
  -- packets sent have shown to the client and not taken back are those that the session holds for
  -- loaded.
  pub columns-serve :
      (unread : List ℕ) (bodies : List (List ℕ))
      → columns (serve d bodies (new_session unread)).sent
        ≡ (serve d bodies (new_session unread)).loaded
  unfolding columns new_session
  columns-serve unread bodies =
      (serve-Keeps d IsInStep (λ s q h. h)
        (λ s body h. handle-case d s IsInStep h (λ p at. dispatch-IsInStep p s at h) body) bodies
        (new_session unread) (refl, (refl, λ e. refl))).1.0
