-- ===== src/Hub/Run.antt =====
-- internal/game/loop/hub.go: the loop of `Run`, over the events in the order in which its channels
-- give them.
use gomc.Prelude.{ℕ, List, [], ◌∷◌}
use gomc.World.Blocks.{World}
use gomc.Hub.{Player, on_join, on_leave, on_chat, on_set_block}
use gomc.Hub.Floats.{Floats}
use gomc.Hub.Move.{JoinRequest, MoveRequest, new_player, on_move}

pub data Event : Type 0 where
  join : JoinRequest → Event
  leave : (eid : ℕ) → Event
  move : MoveRequest → Event
  chat : (eid : ℕ) (msg : List ℕ) → Event
  block : (x y z state : ℕ) → Event

module _ (fl : Floats) where
  unfoldable pub step : Event → World × List Player → World × List Player
  step (Event.join r) (w, ps) = (w, on_join (new_player fl r) ps)
  step (Event.leave eid) (w, ps) = (w, on_leave eid ps)
  step (Event.move m) (w, ps) = (w, on_move fl m ps)
  step (Event.chat eid msg) (w, ps) = (w, on_chat eid msg ps)
  step (Event.block x y z state) (w, ps) = on_set_block x y z state (w, ps)

  unfoldable pub run : List Event → World × List Player → World × List Player
  run [] h = h
  run (e ∷ es) h = run es (step e h)
