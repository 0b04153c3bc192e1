-- ===== src/Session/Beats.antt =====
-- The keep-alives of a session, as the client reads them from the bodies that are written.
use gomc.Prelude.{ℕ, suc, zero, ◌+◌, ◌%◌, ◌^◌, ◌<◌, ◌==◌, ◌&&◌, ◌≡◌, refl, ap, ◌∙◌, arith, Bool}
use gomc.Prelude.{List, [], ◌∷◌, length, map, Option, none, some, inl, inr, Bool-cases}
use gomc.Prelude.{append-nil, if◌then◌else◌, true, false, ==_iff}
use gomc.Codec.Reader
use gomc.Codec.Reader.{Reader, Read, ◌>>=◌, pure}
use gomc.Codec.Reads.{at, Reads, bind-Reads, map-Reads}
use gomc.Codec.Numbers.{fixed-Reads}
use gomc.Codec.VarInt.{var_int-Reads}
use gomc.Packet.Ids
use gomc.Packet.Sent.Play.{encode_keep_alive_play_clientbound}
use gomc.Session.State.{Deps, SessionError}
use gomc.Session.Handle.{handle}
use gomc.Session.Running.{after, Running, Author, Action, act, acts, on_body, beat, flush, finish}
use gomc.Session.Running.{send_raw, is_playing, new_running, keep_alive_packet}
use gomc.Session.Beside.{if-Keeps}

-- A packet id and a long.
unfoldable pub read_numbered : Read (ℕ × ℕ)
read_numbered = do kind ← Reader.var_int; id ← Reader.long; pure (kind, id)

abbrev is_none : Option Reader.Error → Bool
is_none none = true
is_none (some e) = false

-- A client takes a body in Play for a keep-alive if its packet id is 0x2c and a long follows, with
-- nothing after it.
abbrev pub keep_alive_of : (ℕ × ℕ) × Reader → Option ℕ
keep_alive_of ((kind, id), r) =
    if kind == 0x2c && (length r.input == r.pos) && is_none r.err then some id else none

unfoldable pub heard_keep_alive : List ℕ → Option ℕ
heard_keep_alive body = keep_alive_of (read_numbered (Reader.new_reader body))

keep_alive_packet-Reads :
    (d : Deps) (id : ℕ) → id < 2 ^ 64 → Reads read_numbered (keep_alive_packet d id) (0x2c, id)
unfolding read_numbered keep_alive_packet encode_keep_alive_play_clientbound Ids.id
keep_alive_packet-Reads d id h =
    bind-Reads _ (var_int-Reads 0x2c (omega arith)) (map-Reads _ (fixed-Reads 8 id h))

heard-keep_alive_packet :
    (d : Deps) (id : ℕ) → id < 2 ^ 64 → heard_keep_alive (keep_alive_packet d id) ≡ some id
unfolding heard_keep_alive Reader.new_reader
heard-keep_alive_packet d id h = ap keep_alive_of there ∙ rw ((==_iff n n).1 refl) refl
  where
    body : List ℕ
    body = keep_alive_packet d id

    n : ℕ
    n = length body

    there : read_numbered (at [] body) ≡ ((0x2c, id), record { input = body; pos = n; err = none })
    there = rw (append-nil body) at ((keep_alive_packet-Reads d id h).reads [] [])

-- The bodies of the keep-alive loop among those that are written.
abbrev pub of_ticker : List (Author × List ℕ) → List (List ℕ)
of_ticker [] = []
of_ticker ((Author.ticker, body) ∷ rest) = body ∷ of_ticker rest
of_ticker ((Author.drainer, body) ∷ rest) = of_ticker rest

-- The ids 1, 2, ... of so many keep-alives, the latest first.
unfoldable pub counted : ℕ → List ℕ
counted zero = []
counted (suc n) = (suc n % 2 ^ 64) ∷ counted n

-- Whether an action is a tick at which the loop writes: in Play, before any write of the loop has
-- failed, and with a connection that takes the next one.
abbrev pub is_beat : Deps → Action → Running → Bool
is_beat d Action.tick r = (is_playing r && r.ticking) && d.accepts r.session.conn
is_beat d _ r = false

-- `k` and the number of such ticks among the actions.
unfoldable pub beats_from : Deps → ℕ → List Action → Running → ℕ
beats_from d k [] r = k
beats_from d k (a ∷ rest) r = beats_from d (if is_beat d a r then suc k else k) rest (act d a r)

-- So far the loop has counted `k`.
abbrev IsCounted : ℕ → Running → Type 0
IsCounted k r =
    (map heard_keep_alive (of_ticker r.written) ≡ map (λ n. some n) (counted k))
    × (r.next_id ≡ suc k % 2 ^ 64)

module _ (d : Deps) where
  after-IsCounted :
      (k : ℕ) (o : Option SessionError) (r : Running) → IsCounted k r → IsCounted k (after d o r)
  unfolding after finish
  after-IsCounted k none r h = h
  after-IsCounted k (some e) r h = h

  on_body-IsCounted :
      (k : ℕ) (body : List ℕ) (r : Running) → IsCounted k r → IsCounted k (on_body d body r)
  unfolding on_body
  on_body-IsCounted k body r h = after-IsCounted k (handle d body r.session).0 _ h

  beat-IsCounted :
      (k : ℕ) (r : Running)
      → IsCounted k r
      → IsCounted (if d.accepts r.session.conn then suc k else k) (beat d r)
  unfolding beat counted send_raw
  beat-IsCounted k r (same, next) = elim (Bool-cases (d.accepts r.session.conn)) [
    | inl e ↦ rw e (
      ap (λ xs. heard_keep_alive (keep_alive_packet d r.next_id) ∷ xs) same
          ∙ ap (λ o. o ∷ map (λ n. some n) (counted k))
              (heard-keep_alive_packet d r.next_id (omega arith) ∙ ap (λ (n : ℕ). some n) next),
      ap (λ (n : ℕ). (n + 1) % 2 ^ 64) next ∙ omega arith,
    )
    | inr e ↦ rw e (same, next)
  ]

  flush-IsCounted :
      (k : ℕ) (bodies : List (List ℕ)) (r : Running)
      → IsCounted k r
      → IsCounted k (flush d bodies r)
  unfolding flush send_raw
  flush-IsCounted k [] r h = h
  flush-IsCounted k (body ∷ bodies) r h = elim (Bool-cases (d.accepts r.session.conn)) [
    | inl e ↦ rw (e, flush) h
    | inr e ↦ rw (e, flush) h
  ]

  act-IsCounted :
      (k : ℕ) (a : Action) (r : Running)
      → IsCounted k r
      → IsCounted (if is_beat d a r then suc k else k) (act d a r)
  unfolding act finish
  act-IsCounted k (Action.receive body) r h =
      if-Keeps (IsCounted k) r.ended h (on_body-IsCounted k body r h)
  act-IsCounted k Action.tick r h = elim (Bool-cases (is_playing r && r.ticking)) [
    | inl e ↦ rw e (beat-IsCounted k r h)
    | inr e ↦ rw e h
  ]
  act-IsCounted k (Action.queue body) r h = if-Keeps (IsCounted k) _ h h
  act-IsCounted k Action.drain r h = if-Keeps (IsCounted k) _ (flush-IsCounted k r.out r h) h
  act-IsCounted k Action.hang_up r h = if-Keeps (IsCounted k) r.ended h h

  acts-IsCounted :
      (k : ℕ) (actions : List Action) (r : Running)
      → IsCounted k r
      → IsCounted (beats_from d k actions r) (acts d actions r)
  unfolding acts beats_from
  acts-IsCounted k [] r h = h
  acts-IsCounted k (a ∷ rest) r h =
      acts-IsCounted (if is_beat d a r then suc k else k) rest (act d a r) (act-IsCounted k a r h)

  -- However a session's actions interleave, the client reads the ids 1, 2, 3 and so on, as int64s,
  -- from the bodies that the keep-alive loop has written, with none left out and none sent twice:
  -- one for each tick in Play that came before a write of the loop had failed, and at which the
  -- connection took the write.
  pub heard-acts :
      (unread : List ℕ) (actions : List Action)
      → map heard_keep_alive (of_ticker (acts d actions (new_running unread)).written)
        ≡ map (λ n. some n) (counted (beats_from d 0 actions (new_running unread)))
  unfolding new_running counted
  heard-acts unread actions = (acts-IsCounted 0 actions (new_running unread) (refl, refl)).0
