-- ===== src/Session/Serving.antt =====
-- What every packet body keeps, a whole session keeps.
use gomc.Prelude.{ℕ, List, [], ◌∷◌, Bool, true, false, Option, none, some, ◌&&◌}
use gomc.Session.State.{Deps, Session, SessionError, HubRequest, branch, request, done}
use gomc.Session.Handle.{handle, serve_loop, leave_hub, serve}

-- The loop from the outcome of a body.
abbrev go_on : Deps → List (List ℕ) → Option SessionError × Session → Session
go_on d bodies r = elim r.0 [ none ↦ serve_loop d bodies r.1 | some f ↦ r.1 ]

module _ (d : Deps) (P : Session → Type 0)
    (asked : (s : Session) (q : HubRequest) → P s → P (record s { requests = q ∷ s.requests }))
    (handled : (s : Session) (body : List ℕ) → P s → P (handle d body s).1) where
  -- From the outcome of a body.
  go_on-Keeps :
      (bodies : List (List ℕ)) (o : Option SessionError) (t : Session)
      → P t
      → (P t → P (serve_loop d bodies t))
      → P (go_on d bodies (o, t))
  go_on-Keeps bodies none t h rest = rest h
  go_on-Keeps bodies (some f) t h rest = h

  pub serve_loop-Keeps : (bodies : List (List ℕ)) (s : Session) → P s → P (serve_loop d bodies s)
  unfolding serve_loop
  serve_loop-Keeps [] s h = h
  serve_loop-Keeps (body ∷ bodies) s h =
      go_on-Keeps bodies (handle d body s).0 (handle d body s).1 (handled s body h)
        (serve_loop-Keeps bodies (handle d body s).1)

  pub leave_hub-Keeps : (s : Session) → P s → P (leave_hub d s)
  unfolding leave_hub branch request done
  leave_hub-Keeps s h = go (s.joined && d.has_hub)
    where
      go : (b : Bool) → P ((branch b (request (HubRequest.leave s.entity_id)) done s).1)
      go true = asked s _ h
      go false = h

  pub serve-Keeps : (bodies : List (List ℕ)) (s : Session) → P s → P (serve d bodies s)
  unfolding serve
  serve-Keeps bodies s h = leave_hub-Keeps _ (serve_loop-Keeps bodies s h)
