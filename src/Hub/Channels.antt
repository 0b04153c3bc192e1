-- ===== src/Hub/Channels.antt =====
-- internal/game/loop/hub.go: the Hub with its channels, the methods that sessions call, and the
-- choice that `Run` makes among the channels, as actions that follow one another in any order. A
-- method that would block on a full channel waits: it is called again later.
use gomc.Prelude.{ℕ, ◌+◌, ◌%◌, ◌^◌, ltb, length, List, [], ◌∷◌, ◌++◌, if◌then◌else◌}
use gomc.World.Blocks.{World}
use gomc.World.Chunk.{air}
use gomc.Hub.{Player}
use gomc.Hub.Floats.{Floats}
use gomc.Hub.Move.{JoinRequest, MoveRequest}
use gomc.Hub.Run.{Event, step}

pub record ChatRequest : Type 0 where
  pub eid : ℕ
  pub msg : List ℕ

pub record BlockSet : Type 0 where
  pub x : ℕ
  pub y : ℕ
  pub z : ℕ
  pub state : ℕ

-- `players` is the registry, a variable of `Run`.
pub record Hub : Type 0 where
  pub next_eid : ℕ
  pub join : List JoinRequest
  pub move : List MoveRequest
  pub chat : List ChatRequest
  pub setblk : List BlockSet
  pub leave : List ℕ
  pub world : World
  pub players : List Player

unfoldable pub new : World → Hub
new w = record {
  next_eid = 0;
  join = [];
  move = [];
  chat = [];
  setblk = [];
  leave = [];
  world = w;
  players = [];
}

unfoldable pub next_entity_id : Hub → ℕ × Hub
next_entity_id h = let n = (h.next_eid + 1) % 2 ^ 32 in (n, record h { next_eid = n })

-- A send to a channel of some room; a full channel takes nothing.
unfoldable pub offer {ℓ} : {A : Type ℓ} → ℕ → A → List A → List A
offer room a queue = if ltb (length queue) room then queue ++ (a ∷ []) else queue

unfoldable pub ask_join : JoinRequest → Hub → Hub
ask_join r h = record h { join = offer 32 r h.join }

unfoldable pub ask_leave : ℕ → Hub → Hub
ask_leave eid h = record h { leave = offer 32 eid h.leave }

-- The request is dropped if the channel is full.
unfoldable pub ask_move : MoveRequest → Hub → Hub
ask_move r h = record h { move = offer 512 r h.move }

unfoldable pub ask_chat : ℕ → List ℕ → Hub → Hub
ask_chat eid msg h = record h { chat = offer 64 (record { eid = eid; msg = msg }) h.chat }

unfoldable pub place : ℕ → ℕ → ℕ → ℕ → Hub → Hub
place x y z state h = record h {
  setblk = offer 64 (record { x = x; y = y; z = z; state = state }) h.setblk;
}

-- `Break`
unfoldable pub break_block : ℕ → ℕ → ℕ → Hub → Hub
break_block x y z h = place x y z air h

-- What happens at the hub: a call of one of its methods, or a round of `Run` that takes the first
-- request of a channel.
pub data Action : Type 0 where
  call_join : JoinRequest → Action
  call_leave : ℕ → Action
  call_move : MoveRequest → Action
  call_chat : ℕ → List ℕ → Action
  call_place : ℕ → ℕ → ℕ → ℕ → Action
  call_break : ℕ → ℕ → ℕ → Action
  call_next : Action
  take_join take_leave take_move take_chat take_block : Action

module _ (fl : Floats) where
  -- The handler of a request, on the world and the registry.
  unfoldable pub handle : Event → Hub → Hub
  handle e h = let (w, ps) = step fl e (h.world, h.players) in record h { world = w; players = ps }

  -- The first request of each channel; an empty channel is not chosen.
  unfoldable pub on_join_channel : List JoinRequest → Hub → Hub
  on_join_channel [] h = h
  on_join_channel (r ∷ rs) h = handle (Event.join r) (record h { join = rs })

  unfoldable pub on_leave_channel : List ℕ → Hub → Hub
  on_leave_channel [] h = h
  on_leave_channel (eid ∷ eids) h = handle (Event.leave eid) (record h { leave = eids })

  unfoldable pub on_move_channel : List MoveRequest → Hub → Hub
  on_move_channel [] h = h
  on_move_channel (m ∷ ms) h = handle (Event.move m) (record h { move = ms })

  unfoldable pub on_chat_channel : List ChatRequest → Hub → Hub
  on_chat_channel [] h = h
  on_chat_channel (c ∷ cs) h = handle (Event.chat c.eid c.msg) (record h { chat = cs })

  unfoldable pub on_block_channel : List BlockSet → Hub → Hub
  on_block_channel [] h = h
  on_block_channel (b ∷ bs) h = handle (Event.block b.x b.y b.z b.state) (record h { setblk = bs })

  unfoldable pub act : Action → Hub → Hub
  act (Action.call_join r) h = ask_join r h
  act (Action.call_leave eid) h = ask_leave eid h
  act (Action.call_move r) h = ask_move r h
  act (Action.call_chat eid msg) h = ask_chat eid msg h
  act (Action.call_place x y z state) h = place x y z state h
  act (Action.call_break x y z) h = break_block x y z h
  act Action.call_next h = (next_entity_id h).1
  act Action.take_join h = on_join_channel h.join h
  act Action.take_leave h = on_leave_channel h.leave h
  act Action.take_move h = on_move_channel h.move h
  act Action.take_chat h = on_chat_channel h.chat h
  act Action.take_block h = on_block_channel h.setblk h

  unfoldable pub acts : List Action → Hub → Hub
  acts [] h = h
  acts (a ∷ rest) h = acts rest (act a h)
