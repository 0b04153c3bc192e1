-- ===== src/Session/Dispatched.antt =====
-- How the body of a packet comes to be dispatched: only in a state where its id is registered.
use gomc.Prelude.{ℕ, ◌≡◌, refl, sym, ◌∙◌, arith, List, Option, none, some, Bool, true}
use gomc.Prelude.{inl, inr, Option-cases, ◌==◌}
use gomc.Codec.Reader
use gomc.Packet.Registry.{State, Kind, Packet, decode}
use gomc.Packet.Dispatch.{registered, new_serverbound-serverbound}
use gomc.Packet.Registry.{registrations}
use gomc.Packet.Registry.{state_code}
use gomc.Session.State.{Deps, Session, Act}
use gomc.Session.State.{reading, done}
use gomc.Session.Handle.{dispatch, handle, handle_found, handle_kind, unless_err}

-- Where a packet may arrive that changes the state or streams columns.
abbrev pub fits : Packet → State → Bool
fits (Packet.handshake p) st = state_code st == 0
fits Packet.login_acknowledged st = state_code st == 2
fits Packet.ack_finish_configuration st = state_code st == 3
fits (Packet.move_player_pos p) st = state_code st == 4
fits (Packet.move_player_pos_rot p) st = state_code st == 4
fits (Packet.move_player_rot p) st = state_code st == 4
fits _ st = true

abbrev kind_fits : Kind → State → Bool
kind_fits Kind.handshake st = state_code st == 0
kind_fits Kind.login_acknowledged st = state_code st == 2
kind_fits Kind.ack_finish_configuration st = state_code st == 3
kind_fits Kind.move_player_pos st = state_code st == 4
kind_fits Kind.move_player_pos_rot st = state_code st == 4
kind_fits Kind.move_player_rot st = state_code st == 4
kind_fits _ st = true

pub state_code_inj : (s t : State) → (state_code s == state_code t) ≡ true → s ≡ t
state_code_inj State.handshaking State.handshaking h = refl
state_code_inj State.handshaking State.status h = cc
state_code_inj State.handshaking State.login h = cc
state_code_inj State.handshaking State.configuration h = cc
state_code_inj State.handshaking State.play h = cc
state_code_inj State.status State.handshaking h = cc
state_code_inj State.status State.status h = refl
state_code_inj State.status State.login h = cc
state_code_inj State.status State.configuration h = cc
state_code_inj State.status State.play h = cc
state_code_inj State.login State.handshaking h = cc
state_code_inj State.login State.status h = cc
state_code_inj State.login State.login h = refl
state_code_inj State.login State.configuration h = cc
state_code_inj State.login State.play h = cc
state_code_inj State.configuration State.handshaking h = cc
state_code_inj State.configuration State.status h = cc
state_code_inj State.configuration State.login h = cc
state_code_inj State.configuration State.configuration h = refl
state_code_inj State.configuration State.play h = cc
state_code_inj State.play State.handshaking h = cc
state_code_inj State.play State.status h = cc
state_code_inj State.play State.login h = cc
state_code_inj State.play State.configuration h = cc
state_code_inj State.play State.play h = refl

registered-fits :
    (st : State) (id : ℕ) (k : Kind)
    → registered registrations st id ≡ some k
    → kind_fits k st ≡ true
registered-fits State.handshaking id k h = ground arith
registered-fits State.status id k h = ground arith
registered-fits State.login id k h = ground arith
registered-fits State.configuration id k h = ground arith
registered-fits State.play id k h = ground arith

decode-fits : (k : Kind) (r : Reader.Reader) (st : State) → fits (decode k r).0 st ≡ kind_fits k st
unfolding decode Reader.◌>>=◌ Reader.pure
decode-fits Kind.handshake r st = refl
decode-fits Kind.status_request r st = refl
decode-fits Kind.status_ping r st = refl
decode-fits Kind.login_start r st = refl
decode-fits Kind.encryption_response r st = refl
decode-fits Kind.login_acknowledged r st = refl
decode-fits Kind.client_information r st = refl
decode-fits Kind.plugin_message r st = refl
decode-fits Kind.ack_finish_configuration r st = refl
decode-fits Kind.keep_alive r st = refl
decode-fits Kind.known_packs r st = refl
decode-fits Kind.confirm_teleport r st = refl
decode-fits Kind.player_loaded r st = refl
decode-fits Kind.move_player_pos r st = refl
decode-fits Kind.move_player_pos_rot r st = refl
decode-fits Kind.move_player_rot r st = refl
decode-fits Kind.chat_message r st = refl
decode-fits Kind.player_action r st = refl
decode-fits Kind.use_item_on r st = refl
decode-fits Kind.set_carried_item r st = refl
decode-fits Kind.set_creative_mode_slot r st = refl

unless_err-case :
    (Q : Session → Type 0) (r : Reader.Reader) (k : Act) (s : Session)
    → Q s
    → Q (k s).1
    → Q (unless_err r k s).1
unfolding unless_err
unless_err-case Q r k s failed passed = elim (Option-cases r.err) [
  | inl e ↦ rw e passed
  | inr (f, e) ↦ rw e failed
]

-- What holds of a session that is left as it is, and of it after each packet that fits its state,
-- holds of it after any body.
module _ (d : Deps) (s : Session) (Q : Session → Type 0) (same : Q s)
    (handled : (p : Packet) → fits p s.state ≡ true → Q (dispatch d p s).1) where
  handle_kind-case :
      (k : Kind) (r : Reader.Reader) → kind_fits k s.state ≡ true → Q (handle_kind d k r s).1
  unfolding handle_kind
  handle_kind-case k r h =
      unless_err-case Q (decode k r).1 (dispatch d (decode k r).0) s same
        (handled (decode k r).0 (decode-fits k r s.state ∙ h))

  handle_found-case :
      (o : Option Kind) (r : Reader.Reader)
      → ((k : Kind) → o ≡ some k → kind_fits k s.state ≡ true)
      → Q (handle_found d o r s).1
  unfolding handle_found done
  handle_found-case none r h = same
  handle_found-case (some k) r h = handle_kind-case k r (h k refl)

  pub handle-case : (body : List ℕ) → Q (handle d body s).1
  unfolding handle reading
  handle-case body =
      let id : ℕ = (Reader.var_int (Reader.new_reader body)).0 in
      unless_err-case Q _ _ s same (
        handle_found-case _ _
          λ k e. registered-fits s.state id k (sym (new_serverbound-serverbound s.state id).1 ∙ e))
