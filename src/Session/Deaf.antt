-- ===== src/Session/Deaf.antt =====
-- The streaming of columns keeps every property that looks neither at the packets sent nor at the
-- columns that are loaded.
use gomc.Prelude.{ℕ, List, [], ◌∷◌, inl, inr, Bool-cases}
use gomc.Frame.Conn
use gomc.Packet.Clientbound.{Clientbound}
use gomc.Session.State.{Deps, Session, send}
use gomc.Session.Chunks
use gomc.Session.Keeps.{Keeps, keeps_rules, then-Keeps, done-Keeps}

pub record Deaf (P : Session → Type 0) : Type 0 where
  pub sent :
      (s : Session) (c : Conn.Conn) (p : Clientbound)
      → P s
      → P (record s { conn = c; sent = p ∷ s.sent })
  pub loaded : (s : Session) (ks : List (ℕ × ℕ)) → P s → P (record s { loaded = ks })
  pub centred : (s : Session) (x z : ℕ) → P s → P (record s { chunk_x = x; chunk_z = z })

module _ (P : Session → Type 0) (deaf : Deaf P) (d : Deps) where
  pub any_send-Keeps : (p : Clientbound) → Keeps P (send d p)
  unfolding send
  any_send-Keeps p = record {
    keeps = λ s h. elim (Bool-cases (d.accepts s.conn)) [
      | inl e ↦ rw e (deaf.sent s _ p h)
      | inr e ↦ rw e h
    ];
  }

  load_columns-Keeps : (keys : List (ℕ × ℕ)) → Keeps P (Chunks.load_columns d keys)
  unfolding Chunks.load_columns Chunks.load_column
  load_columns-Keeps [] = done-Keeps P
  load_columns-Keeps ((x, z) ∷ keys) =
      then-Keeps P _ _ (search (keeps_rules, any_send-Keeps, deaf.loaded)) (load_columns-Keeps keys)

  unload_columns-Keeps : (want keys : List (ℕ × ℕ)) → Keeps P (Chunks.unload_columns d want keys)
  unfolding Chunks.unload_columns Chunks.unload_column
  unload_columns-Keeps want [] = done-Keeps P
  unload_columns-Keeps want ((x, z) ∷ keys) =
      then-Keeps P _ _ (search (keeps_rules, any_send-Keeps, deaf.loaded))
        (unload_columns-Keeps want keys)

  pub any_update_chunks-Keeps : (cx cz : ℕ) → Keeps P (Chunks.update_chunks d cx cz)
  unfolding Chunks.update_chunks Chunks.stream
  any_update_chunks-Keeps cx cz =
      search (keeps_rules, any_send-Keeps, load_columns-Keeps, unload_columns-Keeps, deaf.centred)
        depth 12
