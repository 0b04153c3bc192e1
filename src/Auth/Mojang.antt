-- ===== src/Auth/Mojang.antt =====
-- internal/protocol/auth/mojang.go: the question to the session service. net/url, net/http and
-- encoding/json are parameters; a profile is whatever the decoding of a body gives.
use gomc.Prelude.{ℕ, ◌==◌, List, [], ◌∷◌, ◌++◌, Option, none, some, if◌then◌else◌}

pub record Response : Type 0 where
  pub status_code : ℕ
  pub body : List ℕ

-- `request` is http.NewRequestWithContext for a GET, with `none` for its error, and `answer`
-- http.DefaultClient.Do.
pub record Web (P : Type 0) : Type 0 where
  pub encode : List (List ℕ × List ℕ) → List ℕ
  pub request : List ℕ → Option (List ℕ)
  pub answer : List ℕ → Option Response
  pub decode : List ℕ → Option P

pub data JoinError : Type 0 where
  bad_request unanswered undecoded not_authenticated : JoinError
  unexpected_status : ℕ → JoinError

-- A profile, or an error.
pub data Answer (P : Type 0) : Type 0 where
  profile : P → Answer P
  error : JoinError → Answer P

-- "username" and "serverId"
abbrev pub username_key : List ℕ
username_key = b'u' ∷ b's' ∷ b'e' ∷ b'r' ∷ b'n' ∷ b'a' ∷ b'm' ∷ b'e' ∷ []

abbrev pub server_id_key : List ℕ
server_id_key = b's' ∷ b'e' ∷ b'r' ∷ b'v' ∷ b'e' ∷ b'r' ∷ b'I' ∷ b'd' ∷ []

module _ {P : Type 0} (web : Web P) (session_url : List ℕ) where
  unfoldable pub question : List ℕ → List ℕ → List ℕ
  question username server_hash =
      session_url
      ++ (b'?' ∷ web.encode ((username_key, username) ∷ (server_id_key, server_hash) ∷ []))

  unfoldable pub decoded : Option P → Answer P
  decoded none = Answer.error JoinError.undecoded
  decoded (some p) = Answer.profile p

  -- The switch on the status code.
  unfoldable pub judge : Response → Answer P
  judge r =
      if r.status_code == 200
      then decoded (web.decode r.body)
      else if r.status_code == 204
      then Answer.error JoinError.not_authenticated
      else Answer.error (JoinError.unexpected_status r.status_code)

  unfoldable pub judge_answer : Option Response → Answer P
  judge_answer none = Answer.error JoinError.unanswered
  judge_answer (some r) = judge r

  unfoldable pub ask : Option (List ℕ) → Answer P
  ask none = Answer.error JoinError.bad_request
  ask (some req) = judge_answer (web.answer req)

  unfoldable pub has_joined : List ℕ → List ℕ → Answer P
  has_joined username server_hash = ask (web.request (question username server_hash))
