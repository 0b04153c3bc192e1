-- ===== src/Hub/Interleaved.antt =====
-- However calls and rounds of `Run` interleave, the hub is what a run of its loop makes of requests
-- that were made.
use gomc.Prelude.{ℕ, ltb, length, List, [], ◌∷◌, ◌++◌, ◌≡◌, refl, sym, ap, ◌∙◌, All, inl, inr}
use gomc.Prelude.{Bool-cases, All-append}
use gomc.World.Blocks.{World}
use gomc.World.Chunk.{air}
use gomc.Hub.{Player}
use gomc.Hub.Floats.{Floats}
use gomc.Hub.Run.{Event, run, step}
use gomc.Hub.Move.{JoinRequest, MoveRequest}
use gomc.Hub.Channels.{ChatRequest, BlockSet}
use gomc.Hub.Channels.{Hub, Action, act, acts, new, offer, handle, ask_join, ask_leave, ask_move}
use gomc.Hub.Channels.{ask_chat, place, break_block, next_entity_id, on_join_channel}
use gomc.Hub.Channels.{on_leave_channel, on_move_channel, on_chat_channel, on_block_channel}

-- The request that a call makes satisfies `P`.
abbrev pub Asks : (Event → Type 0) → Action → Type 0
Asks P (Action.call_join r) = P (Event.join r)
Asks P (Action.call_leave eid) = P (Event.leave eid)
Asks P (Action.call_move r) = P (Event.move r)
Asks P (Action.call_chat eid msg) = P (Event.chat eid msg)
Asks P (Action.call_place x y z state) = P (Event.block x y z state)
Asks P (Action.call_break x y z) = P (Event.block x y z air)
Asks P _ = Unit {0}

run-append :
    (fl : Floats) (es : List Event) (e : Event) (s : World × List Player)
    → run fl (es ++ (e ∷ [])) s ≡ step fl e (run fl es s)
unfolding run
run-append fl [] e s = refl
run-append fl (d ∷ es) e s = run-append fl es e (step fl d s)

offer-All {ℓ} :
    {A : Type ℓ} (P : A → Type 0) (room : ℕ) (a : A) (queue : List A)
    → P a
    → All P queue
    → All P (offer room a queue)
unfolding offer
offer-All P room a queue ha h = elim (Bool-cases (ltb (length queue) room)) [
  | inl e ↦ rw e (All-append P queue (a ∷ []) h (ha, tt))
  | inr e ↦ rw e h
]

-- The world and the registry.
abbrev pub state_of : Hub → World × List Player
state_of h = (h.world, h.players)

-- The requests that wait satisfy `P`.
abbrev Waiting : (Event → Type 0) → Hub → Type 0
Waiting P h =
    All (λ r. P (Event.join r)) h.join
    × All (λ eid. P (Event.leave eid)) h.leave
    × All (λ m. P (Event.move m)) h.move
    × All (λ c. P (Event.chat c.eid c.msg)) h.chat
    × All (λ b. P (Event.block b.x b.y b.z b.state)) h.setblk

module _ (fl : Floats) (P : Event → Type 0) (w : World) where
  -- The hub is what a run of requests that satisfy `P` makes, and those that wait satisfy it too.
  record Ran (h : Hub) : Type 0 where
    events : List Event
    asked : All P events
    same : state_of h ≡ run fl events (w, [])
    waiting : Waiting P h

  handle-Ran : (e : Event) (h : Hub) → P e → Ran h → Ran (handle fl e h)
  unfolding handle
  handle-Ran e h he r = record {
    events = r.events ++ (e ∷ []);
    asked = All-append P r.events (e ∷ []) r.asked (he, tt);
    same = ap (step fl e) r.same ∙ sym (run-append fl r.events e (w, []));
    waiting = r.waiting;
  }

  -- With other requests in wait.
  Waiting-Ran : (h h' : Hub) → state_of h' ≡ state_of h → Waiting P h' → Ran h → Ran h'
  Waiting-Ran h h' e waits r = record {
    events = r.events;
    asked = r.asked;
    same = e ∙ r.same;
    waiting = waits;
  }

  on_join_channel-Ran :
      (qs : List JoinRequest) (h : Hub)
      → All (λ r. P (Event.join r)) qs
      → Ran h
      → Ran (on_join_channel fl qs h)
  unfolding on_join_channel
  on_join_channel-Ran [] h all r = r
  on_join_channel-Ran (q ∷ qs) h (p, all) r =
      handle-Ran (Event.join q) (record h { join = qs }) p
        (Waiting-Ran h _ refl (all, r.waiting.1, r.waiting.2, r.waiting.3, r.waiting.4) r)

  on_leave_channel-Ran :
      (eids : List ℕ) (h : Hub)
      → All (λ eid. P (Event.leave eid)) eids
      → Ran h
      → Ran (on_leave_channel fl eids h)
  unfolding on_leave_channel
  on_leave_channel-Ran [] h all r = r
  on_leave_channel-Ran (eid ∷ eids) h (p, all) r =
      handle-Ran (Event.leave eid) (record h { leave = eids }) p
        (Waiting-Ran h _ refl (r.waiting.0, all, r.waiting.2, r.waiting.3, r.waiting.4) r)

  on_move_channel-Ran :
      (ms : List MoveRequest) (h : Hub)
      → All (λ m. P (Event.move m)) ms
      → Ran h
      → Ran (on_move_channel fl ms h)
  unfolding on_move_channel
  on_move_channel-Ran [] h all r = r
  on_move_channel-Ran (m ∷ ms) h (p, all) r =
      handle-Ran (Event.move m) (record h { move = ms }) p
        (Waiting-Ran h _ refl (r.waiting.0, r.waiting.1, all, r.waiting.3, r.waiting.4) r)

  on_chat_channel-Ran :
      (cs : List ChatRequest) (h : Hub)
      → All (λ c. P (Event.chat c.eid c.msg)) cs
      → Ran h
      → Ran (on_chat_channel fl cs h)
  unfolding on_chat_channel
  on_chat_channel-Ran [] h all r = r
  on_chat_channel-Ran (c ∷ cs) h (p, all) r =
      handle-Ran (Event.chat c.eid c.msg) (record h { chat = cs }) p
        (Waiting-Ran h _ refl (r.waiting.0, r.waiting.1, r.waiting.2, all, r.waiting.4) r)

  on_block_channel-Ran :
      (bs : List BlockSet) (h : Hub)
      → All (λ b. P (Event.block b.x b.y b.z b.state)) bs
      → Ran h
      → Ran (on_block_channel fl bs h)
  unfolding on_block_channel
  on_block_channel-Ran [] h all r = r
  on_block_channel-Ran (b ∷ bs) h (p, all) r =
      handle-Ran (Event.block b.x b.y b.z b.state) (record h { setblk = bs }) p
        (Waiting-Ran h _ refl (r.waiting.0, r.waiting.1, r.waiting.2, r.waiting.3, all) r)

  act-Ran : (a : Action) (h : Hub) → Asks P a → Ran h → Ran (act fl a h)
  unfolding act ask_join ask_leave ask_move ask_chat place break_block next_entity_id
  act-Ran (Action.call_join q) h asks r =
      Waiting-Ran h _ refl
        (
          offer-All (λ r. P (Event.join r)) 32 q _ asks r.waiting.0,
          r.waiting.1,
          r.waiting.2,
          r.waiting.3,
          r.waiting.4,
        )
        r
  act-Ran (Action.call_leave eid) h asks r =
      Waiting-Ran h _ refl
        (
          r.waiting.0,
          offer-All (λ eid. P (Event.leave eid)) 32 eid _ asks r.waiting.1,
          r.waiting.2,
          r.waiting.3,
          r.waiting.4,
        )
        r
  act-Ran (Action.call_move q) h asks r =
      Waiting-Ran h _ refl
        (
          r.waiting.0,
          r.waiting.1,
          offer-All (λ m. P (Event.move m)) 512 q _ asks r.waiting.2,
          r.waiting.3,
          r.waiting.4,
        )
        r
  act-Ran (Action.call_chat eid msg) h asks r =
      Waiting-Ran h _ refl
        (
          r.waiting.0,
          r.waiting.1,
          r.waiting.2,
          offer-All (λ c. P (Event.chat c.eid c.msg)) 64 (record { eid = eid; msg = msg }) _ asks
              r.waiting.3,
          r.waiting.4,
        )
        r
  act-Ran (Action.call_place x y z state) h asks r =
      Waiting-Ran h _ refl
        (
          r.waiting.0,
          r.waiting.1,
          r.waiting.2,
          r.waiting.3,
          offer-All (λ b. P (Event.block b.x b.y b.z b.state)) 64
              (record { x = x; y = y; z = z; state = state }) _ asks r.waiting.4,
        )
        r
  act-Ran (Action.call_break x y z) h asks r =
      Waiting-Ran h _ refl
        (
          r.waiting.0,
          r.waiting.1,
          r.waiting.2,
          r.waiting.3,
          offer-All (λ b. P (Event.block b.x b.y b.z b.state)) 64
              (record { x = x; y = y; z = z; state = air }) _ asks r.waiting.4,
        )
        r
  act-Ran Action.call_next h asks r = Waiting-Ran h _ refl r.waiting r
  act-Ran Action.take_join h asks r = on_join_channel-Ran h.join h r.waiting.0 r
  act-Ran Action.take_leave h asks r = on_leave_channel-Ran h.leave h r.waiting.1 r
  act-Ran Action.take_move h asks r = on_move_channel-Ran h.move h r.waiting.2 r
  act-Ran Action.take_chat h asks r = on_chat_channel-Ran h.chat h r.waiting.3 r
  act-Ran Action.take_block h asks r = on_block_channel-Ran h.setblk h r.waiting.4 r

  acts-Ran :
      (actions : List Action) (h : Hub) → All (Asks P) actions → Ran h → Ran (acts fl actions h)
  unfolding acts
  acts-Ran [] h asks r = r
  acts-Ran (a ∷ rest) h (ask, asks) r = acts-Ran rest (act fl a h) asks (act-Ran a h ask r)

-- However the calls of the hub's methods and the rounds of `Run` follow one another, from a new hub
-- on, the world and the registry are what the loop makes of some requests one after the other, and
-- whatever holds of every request that was made holds of these.
pub acts-run :
    (fl : Floats) (P : Event → Type 0) (w : World) (actions : List Action)
    → All (Asks P) actions
    → (es : List Event) × All P es × (state_of (acts fl actions (new w)) ≡ run fl es (w, []))
unfolding new run
acts-run fl P w actions asks =
    let r =
      acts-Ran fl P w actions (new w) asks
        (record { events = []; asked = tt; same = refl; waiting = (tt, tt, tt, tt, tt) }) in
    (r.events, r.asked, r.same)
