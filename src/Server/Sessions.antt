-- ===== src/Server/Sessions.antt =====
-- The sessions of a server, with the options that it gives them.
use gomc.Prelude.{ℕ, ◌≡◌, Bool, true, false, List, Option, none, some}
use gomc.Server.{Options, Started}
use gomc.Session.State.{Deps, panics}
use gomc.Session.Handle.{handle, serve_loop, new_session}

abbrev is_some : {A : Type 0} → Option A → Bool
is_some none = false
is_some (some a) = true

-- `session.New`: the options of the server, beside what a session takes from elsewhere. There is a
-- hub.
unfoldable pub with_options : {K : Type 0} → Options K → Deps → Deps
with_options o d = record d {
  online_mode = o.online_mode;
  compression_threshold = o.compression_threshold;
  has_hub = true;
  has_key_pair = is_some o.key_pair;
}

-- Whatever bodies arrive, none of them ends the session in a run-time panic.
abbrev pub NeverPanics : Deps → Type 0
NeverPanics d =
    (unread : List ℕ) (bodies : List (List ℕ)) (body : List ℕ)
    → panics (handle d body (serve_loop d bodies (new_session unread))).0 ≡ false

module _ {C K : Type 0} (d : Deps) where
  -- A session that never panics.
  abbrev pub IsSafe : Started C K → Type 0
  IsSafe st = NeverPanics (with_options st.opts d)
