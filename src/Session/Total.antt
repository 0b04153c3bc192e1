-- ===== src/Session/Total.antt =====
-- The streaming of columns succeeds where no write fails.
use gomc.Prelude.{ℕ, ◌^◌, ◌<◌, ◌≡◌, ◌∙◌, refl, ap, ◌&&◌, List, [], ◌∷◌, Bool, true, false, none}
use gomc.Packet.Clientbound.{Clientbound}
use gomc.Session.State.{Deps, Session, SessionError, Act, ◌>>◌, done, modify, reading, branch, send}
use gomc.Session.State.{given}
use gomc.Session.Chunks
use gomc.Session.Chunks.{has}
use gomc.Session.Sending.{then_next, send_taken}
use gomc.Session.Near.{near, IsInside, square, view-square}
use gomc.Session.Streamed.{given-some, update_chunks-has}
use gomc.Frame.Conn.{Conn}

record Succeeds (m : Act) : Type 0 where
  succeeds : (s : Session) → (m s).0 ≡ none

done-Succeeds : Succeeds done
unfolding done
done-Succeeds = record { succeeds = λ s. refl }

modify-Succeeds : (f : Session → Session) → Succeeds (modify f)
unfolding modify
modify-Succeeds f = record { succeeds = λ s. refl }

reading-Succeeds : (f : Session → Act) → ((s : Session) → Succeeds (f s)) → Succeeds (reading f)
unfolding reading
reading-Succeeds f h = record { succeeds = λ s. (h s).succeeds s }

branch-Succeeds : (b : Bool) (m k : Act) → Succeeds m → Succeeds k → Succeeds (branch b m k)
unfolding branch
branch-Succeeds true m k hm hk = record { succeeds = hm.succeeds }
branch-Succeeds false m k hm hk = record { succeeds = hk.succeeds }

then-Succeeds : (m k : Act) → Succeeds m → Succeeds k → Succeeds (m >> k)
then-Succeeds m k hm hk = record {
  succeeds = λ s.
      ap (λ r. r.0) (then_next m k s (m s).1 (ap (λ e. (e, (m s).1)) (hm.succeeds s)))
      ∙ hk.succeeds (m s).1;
}

ruleset succeeds_rules =
    (done-Succeeds, modify-Succeeds, reading-Succeeds, branch-Succeeds, then-Succeeds)

module _ (d : Deps) (accepted : (c : Conn) → d.accepts c ≡ true) where
  send-Succeeds : (p : Clientbound) → Succeeds (send d p)
  send-Succeeds p = record { succeeds = λ s. ap (λ r. r.0) (send_taken d p s (accepted s.conn)) }

  load_columns-Succeeds : (keys : List (ℕ × ℕ)) → Succeeds (Chunks.load_columns d keys)
  unfolding Chunks.load_columns Chunks.load_column
  load_columns-Succeeds [] = done-Succeeds
  load_columns-Succeeds ((x, z) ∷ keys) =
      then-Succeeds _ _ (search (succeeds_rules, send-Succeeds)) (load_columns-Succeeds keys)

  unload_columns-Succeeds :
      (want keys : List (ℕ × ℕ)) → Succeeds (Chunks.unload_columns d want keys)
  unfolding Chunks.unload_columns Chunks.unload_column
  unload_columns-Succeeds want [] = done-Succeeds
  unload_columns-Succeeds want ((x, z) ∷ keys) =
      then-Succeeds _ _ (search (succeeds_rules, send-Succeeds)) (unload_columns-Succeeds want keys)

  stream-Succeeds : (want : List (ℕ × ℕ)) → Succeeds (Chunks.stream d want)
  unfolding Chunks.stream
  stream-Succeeds want =
      search (succeeds_rules, load_columns-Succeeds, unload_columns-Succeeds) depth 12

  given-Succeeds :
      (cx cz : ℕ)
      → IsInside cx
      → IsInside cz
      → Succeeds (given SessionError.runaway (Chunks.view cx cz) (Chunks.stream d))
  given-Succeeds cx cz hx hz = record {
    succeeds = λ s.
        ap (λ r. r.0) (given-some (view-square cx cz hx hz) (Chunks.stream d) s)
        ∙ (stream-Succeeds (square cx cz)).succeeds s;
  }

  -- When the view is centred on a chunk whose view does not reach the ends of the int32s, and no
  -- write fails, the update succeeds, and the columns that are loaded afterwards are those at most
  -- eight from the centre on each axis, whichever were loaded before.
  pub update_chunks-near :
      (cx cz : ℕ) (s : Session) (x z : ℕ)
      → IsInside cx
      → IsInside cz
      → x < 2 ^ 32
      → z < 2 ^ 32
      → ((Chunks.update_chunks d cx cz s).0 ≡ none)
        × (has (x, z) (Chunks.update_chunks d cx cz s).1.loaded ≡ (near cx x && near cz z))
  update_chunks-near cx cz s x z hcx hcz hx hz =
      let fine = update_chunks-Succeeds.succeeds s in
      (fine, update_chunks-has d cx cz s x z hcx hcz hx hz fine)
    where
      update_chunks-Succeeds : Succeeds (Chunks.update_chunks d cx cz)
      update_chunks-Succeeds =
          unfold Chunks.update_chunks in
          then-Succeeds _ _ (then-Succeeds _ _ (send-Succeeds _) (given-Succeeds cx cz hcx hcz))
            (modify-Succeeds _)
