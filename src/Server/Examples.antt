-- ===== src/Server/Examples.antt =====
-- Concrete runs of the server.
use gomc.Prelude.{ℕ, pos, negsuc, ◌≡◌, refl, true, [], ◌∷◌, some}
use gomc.Server.{Config, Host, Accept, compression_threshold}

abbrev config : Config
config = record {
  host = [];
  port = pos 25565;
  online_mode = true;
  compression_threshold = pos 0;
  max_players = negsuc 0;
  motd = [];
  view_distance = pos 8;
}

-- The threshold is the default.
compression_threshold_default : compression_threshold config ≡ pos 256
unfolding compression_threshold
compression_threshold_default = refl

-- Two connections with an error in between, and one too late.
abbrev host : Host ℕ ℕ
host = record {
  generate_key_pair = some 7;
  listen = λ a.
      some (Accept.conn 1 ∷ Accept.failed ∷ Accept.conn 2 ∷ Accept.closed ∷ Accept.conn 3 ∷ []);
  join_host_port = λ a b. a;
  itoa = λ n. [];
}
