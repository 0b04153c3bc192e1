-- ===== src/Session/Beside.antt =====
-- What the loops beside the reading of a session leave as it is.
use gomc.Prelude.{ℕ, ◌≡◌, refl, inl, inr, Bool-cases}
use gomc.Prelude.{List, [], ◌∷◌, Bool, true, false, if◌then◌else◌, Option, none, some}
use gomc.Frame.Conn.{Conn}
use gomc.Session.State.{Deps, Session, HubRequest, SessionError}
use gomc.Session.Handle.{handle, new_session}
use gomc.Session.Dispatched.{handle-case}
use gomc.Session.Running.{
  after, Running, Author, Action, act, acts, on_body, beat, flush, finish, send_raw, write_body,
}
use gomc.Session.Running.{new_running, keep_alive_packet}
use gomc.Session.View.{columns, IsInStep}
use gomc.Session.Synced.{dispatch-IsInStep}
use gomc.Session.Serving.{leave_hub-Keeps}

pub if-Keeps :
    (P : Running → Type 0) (b : Bool) {r r' : Running} → P r → P r' → P (if b then r else r')
if-Keeps P true h h' = h
if-Keeps P false h h' = h'

-- What each kind of action keeps, all interleavings of them keep.
module _ (d : Deps) (P : Running → Type 0)
    (received : (body : List ℕ) (r : Running) → P r → P (on_body d body r))
    (beaten : (r : Running) → P r → P (beat d r))
    (queued : (bodies : List (List ℕ)) (r : Running) → P r → P (record r { out = bodies }))
    (flushed : (bodies : List (List ℕ)) (r : Running) → P r → P (flush d bodies r))
    (finished : (r : Running) → P r → P (finish d r)) where
  act-Keeps : (a : Action) (r : Running) → P r → P (act d a r)
  unfolding act
  act-Keeps (Action.receive body) r h = if-Keeps P r.ended h (received body r h)
  act-Keeps Action.tick r h = if-Keeps P _ (beaten r h) h
  act-Keeps (Action.queue body) r h = if-Keeps P _ (queued _ r h) h
  act-Keeps Action.drain r h = if-Keeps P _ (flushed r.out r h) h
  act-Keeps Action.hang_up r h = if-Keeps P r.ended h (finished r h)

  pub acts-Keeps : (actions : List Action) (r : Running) → P r → P (acts d actions r)
  unfolding acts
  acts-Keeps [] r h = h
  acts-Keeps (a ∷ rest) r h = acts-Keeps rest (act d a r) (act-Keeps a r h)

-- What the handlers keep, whatever the connection, the whole session keeps.
module _ (d : Deps) (P : Session → Type 0)
    (asked : (s : Session) (q : HubRequest) → P s → P (record s { requests = q ∷ s.requests }))
    (handled : (s : Session) (body : List ℕ) → P s → P (handle d body s).1)
    (written : (s : Session) (c : Conn) → P s → P (record s { conn = c })) where
  send_raw-Keeps :
      (who : Author) (body : List ℕ) (r : Running)
      → P r.session
      → P (send_raw d who body r).1.session
  unfolding send_raw write_body
  send_raw-Keeps who body r h = elim (Bool-cases (d.accepts r.session.conn)) [
    | inl e ↦ rw (send_raw, e) (written r.session _ h)
    | inr e ↦ rw (send_raw, e) h
  ]

  finish-Keeps : (r : Running) → P r.session → P (finish d r).session
  unfolding finish
  finish-Keeps r h = leave_hub-Keeps d P asked handled r.session h

  after-Keeps : (o : Option SessionError) (r : Running) → P r.session → P (after d o r).session
  unfolding after
  after-Keeps none r h = h
  after-Keeps (some e) r h = finish-Keeps r h

  on_body-Keeps : (body : List ℕ) (r : Running) → P r.session → P (on_body d body r).session
  unfolding on_body
  on_body-Keeps body r h = after-Keeps _ _ (handled r.session body h)

  beat-Keeps : (r : Running) → P r.session → P (beat d r).session
  unfolding beat
  beat-Keeps r h =
      let h' = send_raw-Keeps Author.ticker (keep_alive_packet d r.next_id) r h in
      if-Keeps (λ r'. P r'.session) (send_raw d Author.ticker (keep_alive_packet d r.next_id) r).0
        h' h'

  flush-Keeps : (bodies : List (List ℕ)) (r : Running) → P r.session → P (flush d bodies r).session
  unfolding flush
  flush-Keeps [] r h = h
  flush-Keeps (body ∷ bodies) r h = send_raw-Keeps Author.drainer body r h

  session-Keeps : (actions : List Action) (r : Running) → P r.session → P (acts d actions r).session
  session-Keeps actions r h =
      acts-Keeps d (λ r'. P r'.session) on_body-Keeps beat-Keeps (λ bodies r' h'. h') flush-Keeps
        finish-Keeps actions r h

-- From a new session on, however arriving bodies, keep-alives, packets that the hub queues and their
-- writing interleave, and whichever writes fail, the columns that the handlers' packets have shown
-- to the client and not taken back are those that the session holds for loaded.
pub columns-acts :
    (d : Deps) (unread : List ℕ) (actions : List Action)
    → columns (acts d actions (new_running unread)).session.sent
      ≡ (acts d actions (new_running unread)).session.loaded
unfolding new_running new_session columns
columns-acts d unread actions =
    (session-Keeps d IsInStep (λ s q h. h)
      (λ s body h. handle-case d s IsInStep h (λ p at. dispatch-IsInStep d p s at h) body)
      (λ s c h. h) actions (new_running unread) (refl, (refl, λ e. refl))).1.0
