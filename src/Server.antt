-- ===== src/Server.antt =====
-- internal/server: config.go and server.go. The listener and the key pair are parameters; an
-- accepted connection is of any type. A text is its bytes, an int is a ℤ.
pub mod Sessions
mod Examples
use gomc.Prelude.{ℕ, ℤ, pos, negsuc, Bool, true, false, Option, none, some, if◌then◌else◌}
use gomc.Prelude.{List, [], ◌∷◌, ◌==◌}
use gomc.Text.{plain}
use gomc.Text.Utf8.{runes}
use gomc.Text.Status.{StatusResponse}

pub record Config : Type 0 where
  pub host : List ℕ
  pub port : ℤ
  pub online_mode : Bool
  pub compression_threshold : ℤ
  pub max_players : ℤ
  pub motd : List ℕ
  pub view_distance : ℤ

abbrev pub default_compression_threshold : ℤ
default_compression_threshold = pos 256

-- "26.1.2"
abbrev pub game_version : List ℕ
game_version = b'2' ∷ b'6' ∷ b'.' ∷ b'1' ∷ b'.' ∷ b'2' ∷ []

abbrev pub protocol_version : ℕ
protocol_version = 775

-- "A gomc server"
abbrev default_motd : List ℕ
default_motd =
    b'A' ∷ b' ' ∷ b'g' ∷ b'o' ∷ b'm' ∷ b'c' ∷ b' ' ∷ b's' ∷ b'e' ∷ b'r' ∷ b'v' ∷ b'e' ∷ b'r' ∷ []

-- net.JoinHostPort and strconv.Itoa are arguments.
unfoldable pub addr : (List ℕ → List ℕ → List ℕ) → (ℤ → List ℕ) → Config → List ℕ
addr join_host_port itoa c = join_host_port c.host (itoa c.port)

unfoldable pub compression_threshold : Config → ℤ
compression_threshold c = elim c.compression_threshold [
  | pos n ↦ if n == 0 then default_compression_threshold else pos n
  | negsuc n ↦ negsuc n
]

-- A maximum that is not positive is 20.
unfoldable pub max_or_default : ℤ → ℤ
max_or_default (pos n) = if n == 0 then pos 20 else pos n
max_or_default (negsuc n) = pos 20

unfoldable pub motd_or_default : List ℕ → List ℕ
motd_or_default [] = default_motd
motd_or_default (c ∷ cs) = c ∷ cs

unfoldable pub status : Config → StatusResponse
status c = record {
  version = record { name = game_version; protocol = protocol_version };
  players = record { max = max_or_default c.max_players; online = 0; sample = [] };
  description = plain (runes (motd_or_default c.motd));
  favicon = [];
  enforces_secure_chat = false;
}

-- What the listener's Accept gives: a connection, an error, or an error once the context has ended
-- or the listener is closed.
pub data Accept (C : Type 0) : Type 0 where
  conn : C → Accept C
  failed closed : Accept C

pub data RunError : Type 0 where
  key_pair listen : RunError

-- The options of a session; the hub and the world are those of the server.
pub record Options (K : Type 0) : Type 0 where
  pub online_mode : Bool
  pub compression_threshold : ℤ
  pub key_pair : Option K

-- A session that was started.
pub record Started (C K : Type 0) : Type 0 where
  pub conn : C
  pub status : StatusResponse
  pub opts : Options K

-- auth.GenerateKeyPair, net.ListenConfig.Listen with what Accept gives afterwards, and the
-- formatting of the address.
pub record Host (C K : Type 0) : Type 0 where
  pub generate_key_pair : Option K
  pub listen : List ℕ → Option (List (Accept C))
  pub join_host_port : List ℕ → List ℕ → List ℕ
  pub itoa : ℤ → List ℕ

unfoldable pub options : {K : Type 0} → Config → Option K → Options K
options c kp = record {
  online_mode = c.online_mode;
  compression_threshold = compression_threshold c;
  key_pair = kp;
}

module _ {C K : Type 0} where
  -- The loop over Accept, which ends with a closed listener.
  unfoldable pub accept_loop : StatusResponse → Options K → List (Accept C) → List (Started C K)
  accept_loop st opts [] = []
  accept_loop st opts (Accept.conn c ∷ rest) =
      record { conn = c; status = st; opts = opts } ∷ accept_loop st opts rest
  accept_loop st opts (Accept.failed ∷ rest) = accept_loop st opts rest
  accept_loop st opts (Accept.closed ∷ rest) = []

  -- The rest of `Run`, once the options are known.
  unfoldable pub serve_with : Host C K → Config → Options K → Option RunError × List (Started C K)
  serve_with h c opts = elim (h.listen (addr h.join_host_port h.itoa c)) [
    | none ↦ (some RunError.listen, [])
    | some accepts ↦ (none, accept_loop (status c) opts accepts)
  ]

  -- `Run`: its error, if any, and the sessions that it started.
  unfoldable pub run : Host C K → Config → Option RunError × List (Started C K)
  run h c =
      if c.online_mode
      then elim h.generate_key_pair [
        | none ↦ (some RunError.key_pair, [])
        | some kp ↦ serve_with h c (options c (some kp))
      ]
      else serve_with h c (options c none)
