-- ===== src/Session/Running.antt =====
-- internal/net/session/session.go: a session with the loops that run beside its reading, the
-- keep-alive loop and the writer of the packets that the hub queues. sendMu makes each write whole.
-- What they do is a sequence of actions, in any order; the handling of a body counts as one action,
-- with the writes of the loops before or after it.
use gomc.Prelude.{ℕ, ◌+◌, ◌%◌, ◌^◌, ltb, ◌==◌, Bool, true, false, ◌&&◌, not, if◌then◌else◌}
use gomc.Prelude.{List, [], ◌∷◌, ◌++◌, length, Option, none, some}
use gomc.Codec.Writer
use gomc.Frame.Conn.{write_packet}
use gomc.Packet.Ids
use gomc.Packet.Ids.{Sent}
use gomc.Packet.Registry.{state_code}
use gomc.Packet.Sent.Play.{encode_keep_alive_play_clientbound}
use gomc.Session.State.{Deps, Session, SessionError}
use gomc.Session.Handle.{handle, leave_hub, new_session}

-- The loop that writes a body: the keep-alive loop or the outbound writer.
pub data Author : Type 0 where
  ticker drainer : Author

-- `next_id` is the id of the keep-alive loop. `written` records the bodies that the loops have
-- written on the connection, the latest first; the program has no such field. `ended` is a closed
-- channel done.
pub record Running : Type 0 where
  pub session : Session
  pub out : List (List ℕ)
  pub next_id : ℕ
  pub written : List (Author × List ℕ)
  pub ticking : Bool
  pub draining : Bool
  pub ended : Bool

-- The loops start at the end of enterPlay, which a session reaches once.
unfoldable pub new_running : List ℕ → Running
new_running unread = record {
  session = new_session unread;
  out = [];
  next_id = 1;
  written = [];
  ticking = true;
  draining = true;
  ended = false;
}

-- A body arrives, the ticker fires, the hub queues a packet, the writer takes one, or the reading
-- ends.
pub data Action : Type 0 where
  receive : List ℕ → Action
  tick : Action
  queue : List ℕ → Action
  drain : Action
  hang_up : Action

-- Whether the loops run: Play has been entered, and `done` is open.
abbrev pub is_playing : Running → Bool
is_playing r = (state_code r.session.state == 4) && not r.ended

module _ (d : Deps) where
  -- The session with a body written on its connection.
  unfoldable pub write_body : List ℕ → Session → Session
  write_body body s = record s { conn = write_packet d.zlib body s.conn }

  -- `sendRaw` in a loop, with whether it has written the body.
  unfoldable pub send_raw : Author → List ℕ → Running → Bool × Running
  send_raw who body r =
      if d.accepts r.session.conn
      then (
        true,
        record r { session = write_body body r.session; written = (who, body) ∷ r.written },
      )
      else (false, r)

  unfoldable pub keep_alive_packet : ℕ → List ℕ
  keep_alive_packet id =
      Writer.var_int (Ids.id Sent.keep_alive_play)
      ++ encode_keep_alive_play_clientbound (record { keep_alive_id = id })

  -- The end of `Serve`.
  unfoldable pub finish : Running → Running
  finish r = record r { session = leave_hub d r.session; ended = true }

  -- The loop of `Serve` ends with an error of a handler. A run-time panic ends the program, and this
  -- session with it.
  unfoldable pub after : Option SessionError → Running → Running
  after none r = r
  after (some e) r = finish r

  unfoldable pub on_body : List ℕ → Running → Running
  on_body body r = let (e, s) = handle d body r.session in after e (record r { session = s })

  -- A round of `keepAliveLoop`; an error ends the loop.
  unfoldable pub beat : Running → Running
  beat r =
      let (ok, r') = send_raw Author.ticker (keep_alive_packet r.next_id) r in
      if ok
      then record r' { next_id = (r'.next_id + 1) % 2 ^ 64 }
      else record r' { ticking = false }

  -- A round of `drainOutbound`.
  unfoldable pub flush : List (List ℕ) → Running → Running
  flush [] r = r
  flush (body ∷ bodies) r =
      let (ok, r') = send_raw Author.drainer body r in record r' { out = bodies; draining = ok }

  unfoldable pub act : Action → Running → Running
  act (Action.receive body) r = if r.ended then r else on_body body r
  act Action.tick r = if is_playing r && r.ticking then beat r else r
  act (Action.queue body) r =
      if is_playing r && ltb (length r.out) 256 then record r { out = r.out ++ (body ∷ []) } else r
  act Action.drain r = if is_playing r && r.draining then flush r.out r else r
  act Action.hang_up r = if r.ended then r else finish r

  unfoldable pub acts : List Action → Running → Running
  acts [] r = r
  acts (a ∷ rest) r = acts rest (act a r)
