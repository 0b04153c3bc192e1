-- ===== src/Session/Examples.antt =====
-- Concrete runs of a session, after session_test.go, and the theorems at concrete inputs.
use gomc.Prelude.{ℕ, ◌-◌, ◌^◌, ◌≡◌, ◌≢◌, refl, arith, List, [], ◌∷◌, false, map, ◌++◌, some, none}
use gomc.Prelude.{replicate, ◌&&◌, length}
use gomc.Codec.Uuid.{parse_uuid}
use gomc.Frame.Conn.{enable_encryption}
use gomc.Packet.Registry.{State}
use gomc.Packet.Joining.{EncryptionResponse}
use gomc.Session.State.{
  Deps, Session, panics, SessionError, given, ◌>>◌, branch, done, reading, modify, send,
}
use gomc.Session.Chunks
use gomc.Session.Chunks.{has, range32, around, add32}
use gomc.Session.Login
use gomc.Session.Login.{bytes_of}
use gomc.Session.Handle.{handle, serve_loop, new_session}
use gomc.Session.States.{Moves, handle-Moves}
use gomc.Session.View.{columns}
use gomc.Prelude.{length}
use gomc.Session.Running.{Action, acts, new_running}
use gomc.Session.Beside.{columns-acts}
use gomc.Session.Beats.{heard_keep_alive, of_ticker, counted, beats_from, heard-acts}
use gomc.Session.Near.{near}
use gomc.Session.Loops.{around-range32}
use gomc.Session.Total.{update_chunks-near}
use gomc.Session.Online.{online}
use gomc.Session.Orderly.{handle-panics}
use gomc.Session.Unkeyed.{response_body, handle-unkeyed}
use gomc.Session.Trusted.{IsCalled, IsVouched, handle-IsCalled, on_encryption_response-IsVouched}

-- A handshake for a login, a login start for "S" and an acknowledgement.
abbrev bodies : List (List ℕ)
bodies = (0 ∷ 0 ∷ 0 ∷ 0 ∷ 0 ∷ 2 ∷ []) ∷ (0 ∷ 1 ∷ b'S' ∷ replicate 16 0) ∷ (3 ∷ []) ∷ []

handle-Moves_example :
    Moves State.handshaking (handle online (0 ∷ 0 ∷ 0 ∷ 0 ∷ 0 ∷ 2 ∷ []) (new_session [])).1.state
unfolding new_session
handle-Moves_example = handle-Moves online (new_session []) (0 ∷ 0 ∷ 0 ∷ 0 ∷ 0 ∷ 2 ∷ [])

-- Bodies that arrive between keep-alives and packets of the hub.
abbrev actions : List Action
actions =
    Action.tick ∷ Action.receive [] ∷ Action.queue (3 ∷ []) ∷ Action.drain ∷ Action.hang_up ∷ []

columns-acts_example :
    columns (acts online actions (new_running [])).session.sent
    ≡ (acts online actions (new_running [])).session.loaded
columns-acts_example = columns-acts online [] actions

-- From the handshake to Play.
abbrev play_bodies : List (List ℕ)
play_bodies = bodies ++ ((3 ∷ []) ∷ [])

-- The bodies up to Play, and two ticks with a packet of the hub between.
abbrev ticking : List Action
ticking =
    map Action.receive play_bodies
    ++ (Action.tick ∷ Action.queue (3 ∷ []) ∷ Action.drain ∷ Action.tick ∷ [])

heard-acts_example :
    map heard_keep_alive (of_ticker (acts online ticking (new_running [])).written)
    ≡ map (λ n. some n) (counted (beats_from online 0 ticking (new_running [])))
heard-acts_example = heard-acts online [] ticking

handle-panics_example :
    panics
      (handle online (0x38 ∷ 0 ∷ 45 ∷ 0 ∷ []) (serve_loop online play_bodies (new_session []))).0
    ≡ false
handle-panics_example = handle-panics online refl [] play_bodies (0x38 ∷ 0 ∷ 45 ∷ 0 ∷ [])

-- A session in Login of a server in offline mode.
abbrev offline : Deps
offline = record online { online_mode = false; has_key_pair = false }

abbrev in_login : Session
in_login = record (new_session []) { state = State.login }

handle-unkeyed_example :
    handle offline (response_body [] []) in_login ≡ (some SessionError.nil_dereference, in_login)
handle-unkeyed_example = handle-unkeyed offline in_login [] [] refl refl (omega arith) (omega arith)

update_chunks-near_example :
    ((Chunks.update_chunks online 5 0 (new_session [])).0 ≡ none)
    × (has (13, 2) (Chunks.update_chunks online 5 0 (new_session [])).1.loaded
        ≡ (near 5 13 && near 0 2))
update_chunks-near_example =
    update_chunks-near online (λ c. refl) 5 0 (new_session []) 13 2
      (omega arith, (omega arith, omega arith)) (omega arith, (omega arith, omega arith))
      (omega arith) (omega arith)

around-range32_example :
    (5 ≢ 2 ^ 31 - 9 → (xs : List ℕ) × (around 5 ≡ some xs))
    × (range32 1000 3 (add32 (2 ^ 31 - 9) 8) ≡ none)
around-range32_example = around-range32 5 1000 3 (omega arith)

handle-IsCalled_example :
    IsCalled []
      (replicate 16 0)
      (handle online (3 ∷ []) (record (new_session []) { state = State.login })).1
unfolding new_session
handle-IsCalled_example = handle-IsCalled online (new_session [])

abbrev response : EncryptionResponse
response = record { shared_secret = some (replicate 16 9); verify_token = some [] }

response_answered : (Login.on_encryption_response online response (new_session [])).0 ≡ none
unfolding new_session Login.on_encryption_response Login.with_key_pair Login.decrypt_response given
    ◌>>◌ branch done Login.check_token reading Login.same_bytes Login.encrypt Login.encrypted
    enable_encryption modify Login.verify_join parse_uuid Login.adopt Login.finish_login
    Login.set_compression Login.send_success send
response_answered = refl

on_encryption_response-IsVouched_example :
    (online.decrypt (bytes_of response.verify_token) ≡ some (new_session []).verify_token)
    × ((secret : List ℕ) × ((online.decrypt (bytes_of response.shared_secret) ≡ some secret)
          × ((length secret ≡ 16)
              × IsVouched online
                  (new_session []).username
                  secret
                  (Login.on_encryption_response online response (new_session [])).1)))
unfolding new_session
on_encryption_response-IsVouched_example =
    on_encryption_response-IsVouched online response (new_session []) response_answered
