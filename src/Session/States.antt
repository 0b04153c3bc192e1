-- ===== src/Session/States.antt =====
-- The states that a session goes through.
use gomc.Prelude.{ℕ, ◌≡◌, refl, sym, List, true, false}
use gomc.Prelude.{inl, inr, Bool-cases, ◌==◌}
use gomc.Packet.Registry.{State, Packet}
use gomc.Packet.Registry.{state_code}
use gomc.Packet.Playing.{SetCarriedItem, SetCreativeModeSlot}
use gomc.Packet.Joining.{Handshake}
use gomc.Session.State.{Deps, Session, Act, HubRequest, request, ◌>>◌, branch}
use gomc.Session.State.{modify, fail}
use mathlib.Core.Path.{subst}
use gomc.Prelude.{◌||◌}
use gomc.Session.Login
use gomc.Session.Play
use gomc.Session.Handle.{dispatch, handle}
use gomc.Session.Dispatched.{fits, state_code_inj, handle-case}
use gomc.Session.Keeps.{Keeps, keeps_rules}
use gomc.Session.Deaf.{Deaf, any_send-Keeps, any_update_chunks-Keeps}
use gomc.Session.Blind.{Blind, dispatch-Keeps, is_special}
use gomc.Session.Blind.{enter_configuration-Keeps}

-- The moves that a session may make, one packet at a time.
pub data Moves : State → State → Type 0 where
  stay : (st : State) → Moves st st
  to_status : Moves State.handshaking State.status
  to_login : Moves State.handshaking State.login
  to_configuration : Moves State.login State.configuration
  to_play : Moves State.configuration State.play

abbrev pub IsIn : State → Session → Type 0
IsIn st s = s.state ≡ st

module _ (st : State) where
  IsIn-Blind : Blind (IsIn st)
  IsIn-Blind = record {
    sent = λ s c p plain h. h;
    conn = λ s c h. h;
    requested = λ s q h. h;
    profile = λ s name uuid token ps h. h;
    moved = λ s x y z yaw pitch g h. h;
  }

  IsIn-Deaf : Deaf (IsIn st)
  IsIn-Deaf = record { sent = λ s c p h. h; loaded = λ s ks h. h; centred = λ s x z h. h }

  module _ (d : Deps) where
    request-IsIn : (q : HubRequest) → Keeps (IsIn st) (request q)
    unfolding request
    request-IsIn q = record { keeps = λ s h. h }

    enter_play-IsIn : Keeps (IsIn st) (Play.enter_play d)
    unfolding Play.enter_play Play.announce Play.start_play Play.reset_view Play.at_spawn
        Play.join_hub
    enter_play-IsIn =
        search
          (
            keeps_rules,
            any_send-Keeps (IsIn st) IsIn-Deaf d,
            any_update_chunks-Keeps (IsIn st) IsIn-Deaf d,
            request-IsIn,
          )
          depth 16

    on_carried_item-IsIn : (p : SetCarriedItem) → Keeps (IsIn st) (Play.on_carried_item p)
    unfolding Play.on_carried_item
    on_carried_item-IsIn p = search keeps_rules

    on_creative_slot-IsIn : (p : SetCreativeModeSlot) → Keeps (IsIn st) (Play.on_creative_slot p)
    unfolding Play.on_creative_slot Play.put_in_hotbar Play.indexed
    on_creative_slot-IsIn p = search keeps_rules

module _ (d : Deps) (s : Session) where
  stays : (m : Act) → Keeps (IsIn s.state) m → Moves s.state (m s).1.state
  stays m h = subst (λ t. Moves s.state t) (sym (h.keeps s refl)) (Moves.stay s.state)

  -- From a state that is known, to one that is known.
  moves :
      (st t : State) (m : Act)
      → (state_code s.state == state_code st) ≡ true
      → Moves st t
      → (m s).1.state ≡ t
      → Moves s.state (m s).1.state
  moves st t m h mv e =
      subst (λ a. Moves s.state a) (sym e)
        (subst (λ a. Moves a t) (sym (state_code_inj s.state st h)) mv)

  on_handshake-Moves :
      (p : Handshake)
      → (state_code s.state == 0) ≡ true
      → Moves s.state (Login.on_handshake p s).1.state
  unfolding Login.on_handshake branch modify fail
  on_handshake-Moves p h = elim (Bool-cases (p.next_state == 1)) [
    | inl e ↦ moves State.handshaking State.status (Login.on_handshake p) h Moves.to_status (rw e)
    | inr e ↦ elim (Bool-cases (p.next_state == 2 || (p.next_state == 3))) [
      | inl f ↦
          moves State.handshaking State.login (Login.on_handshake p) h Moves.to_login (rw (e, f))
      | inr f ↦ rw (e, f) (Moves.stay s.state)
    ]
  ]

  acknowledged-Moves :
      (state_code s.state == 2) ≡ true → Moves s.state (Login.on_login_acknowledged d s).1.state
  acknowledged-Moves h =
      moves State.login State.configuration (Login.on_login_acknowledged d) h Moves.to_configuration
        (arrives s)
    where
      arrives : (t : Session) → (Login.on_login_acknowledged d t).1.state ≡ State.configuration
      arrives t =
          unfold Login.on_login_acknowledged ◌>>◌ modify in
          (enter_configuration-Keeps _ (IsIn-Blind State.configuration) d).keeps
            (record t { state = State.configuration }) refl

  finished-Moves :
      (state_code s.state == 3) ≡ true
      → Moves s.state (dispatch d Packet.ack_finish_configuration s).1.state
  finished-Moves h =
      moves State.configuration State.play (dispatch d Packet.ack_finish_configuration) h
        Moves.to_play (arrives s)
    where
      arrives : (t : Session) → (dispatch d Packet.ack_finish_configuration t).1.state ≡ State.play
      arrives t =
          unfold dispatch ◌>>◌ modify in
          (enter_play-IsIn State.play d).keeps (record t { state = State.play }) refl

  plain-Moves : (p : Packet) → is_special p ≡ false → Moves s.state (dispatch d p s).1.state
  plain-Moves p h = stays (dispatch d p) (
      dispatch-Keeps _ (IsIn-Blind s.state) d p h
        (λ m. any_update_chunks-Keeps (IsIn s.state) (IsIn-Deaf s.state) d))

  dispatch-Moves : (p : Packet) → fits p s.state ≡ true → Moves s.state (dispatch d p s).1.state
  dispatch-Moves (Packet.handshake p) h = unfold dispatch in on_handshake-Moves p h
  dispatch-Moves Packet.login_acknowledged h = unfold dispatch in acknowledged-Moves h
  dispatch-Moves Packet.ack_finish_configuration h = finished-Moves h
  dispatch-Moves (Packet.set_carried_item p) h =
      unfold dispatch in stays (Play.on_carried_item p) (on_carried_item-IsIn s.state d p)
  dispatch-Moves (Packet.set_creative_mode_slot p) h =
      unfold dispatch in stays (Play.on_creative_slot p) (on_creative_slot-IsIn s.state d p)
  dispatch-Moves Packet.status_request h = plain-Moves _ refl
  dispatch-Moves Packet.player_loaded h = plain-Moves _ refl
  dispatch-Moves (Packet.status_ping p) h = plain-Moves _ refl
  dispatch-Moves (Packet.login_start p) h = plain-Moves _ refl
  dispatch-Moves (Packet.encryption_response p) h = plain-Moves _ refl
  dispatch-Moves (Packet.client_information p) h = plain-Moves _ refl
  dispatch-Moves (Packet.plugin_message p) h = plain-Moves _ refl
  dispatch-Moves (Packet.known_packs p) h = plain-Moves _ refl
  dispatch-Moves (Packet.keep_alive p) h = plain-Moves _ refl
  dispatch-Moves (Packet.confirm_teleport p) h = plain-Moves _ refl
  dispatch-Moves (Packet.move_player_pos p) h = plain-Moves _ refl
  dispatch-Moves (Packet.move_player_pos_rot p) h = plain-Moves _ refl
  dispatch-Moves (Packet.move_player_rot p) h = plain-Moves _ refl
  dispatch-Moves (Packet.chat_message p) h = plain-Moves _ refl
  dispatch-Moves (Packet.player_action p) h = plain-Moves _ refl
  dispatch-Moves (Packet.use_item_on p) h = plain-Moves _ refl

  -- Whatever bytes arrive as a packet's body, handled or refused, the session stays in its state or
  -- makes one of the moves from handshaking to status or login, from login to configuration, and
  -- from configuration to play.
  pub handle-Moves : (body : List ℕ) → Moves s.state (handle d body s).1.state
  handle-Moves = handle-case d s (λ t. Moves s.state t.state) (Moves.stay s.state) dispatch-Moves
