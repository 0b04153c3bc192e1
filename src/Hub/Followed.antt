-- ===== src/Hub/Followed.antt =====
-- What each player has been told agrees with the registry, through whole runs.
use gomc.Prelude.{ℕ, ◌^◌, ◌<◌, ◌≡◌, List, [], ◌∷◌, length, All, ◌==◌, false, some, none}
use gomc.World.Blocks.{World}
use gomc.Hub.{Player, lookup}
use gomc.Hub.Floats.{Floats, FloatLaws}
use gomc.Hub.Move.{new_player}
use gomc.Hub.View.{known, heard}
use gomc.Hub.Put.{All-lookup}
use gomc.Hub.Agrees.{Agrees}
use gomc.Hub.Present.{IsPresent, on_join-IsPresent, on_leave-IsPresent, on_chat-IsPresent}
use gomc.Hub.Present.{on_set_block-IsPresent}
use gomc.Hub.Presence.{on_move-IsPresent}
use gomc.Hub.Run.{Event, run, step}

-- What a session asks is within the widths of its fields, and it joins with an empty channel.
abbrev pub IsSound : Event → Type 0
IsSound (Event.join r) =
    r.entity_id < 2 ^ 32
    × (length r.uuid ≡ 16)
    × r.x < 2 ^ 64
    × r.y < 2 ^ 64
    × r.z < 2 ^ 64
    × (r.out ≡ [])
IsSound (Event.move m) = m.x < 2 ^ 64 × m.y < 2 ^ 64 × m.z < 2 ^ 64
IsSound _ = Unit {0}

module _ {fl : Floats} (laws : FloatLaws fl) where
  step-IsPresent :
      (e : Event) (w : World) (ps : List Player)
      → IsSound e
      → IsPresent fl ps
      → IsPresent fl (step fl e (w, ps)).1
  unfolding step new_player
  step-IsPresent (Event.join r) w ps (he, hu, hx, hy, hz, new) h =
      on_join-IsPresent fl (new_player fl r) ps (he, hu, hx, hy, hz) new h
  step-IsPresent (Event.leave eid) w ps sound h = on_leave-IsPresent fl eid ps h
  step-IsPresent (Event.move m) w ps sound h = on_move-IsPresent laws m ps sound h
  step-IsPresent (Event.chat eid msg) w ps sound h = on_chat-IsPresent fl eid msg ps h
  step-IsPresent (Event.block x y z state) w ps sound h =
      on_set_block-IsPresent fl x y z state w ps h

  run-IsPresent :
      (es : List Event) (w : World) (ps : List Player)
      → All IsSound es
      → IsPresent fl ps
      → IsPresent fl (run fl es (w, ps)).1
  unfolding run
  run-IsPresent [] w ps sound h = h
  run-IsPresent (e ∷ es) w ps (s, sound) h = run-IsPresent es _ _ sound (step-IsPresent e w ps s h)

-- After any run of the hub from an empty registry, a client that reads the packets in the channel
-- of a registered player takes every other entity to be exactly where the registry has it, and no
-- entity to exist that the registry does not have. The channel has never been full, entity ids are
-- of 32 bits, UUIDs of 16 bytes and positions of 64 bits, newcomers' channels are empty, and the
-- floats obey `FloatLaws`; joins, leaves, moves, teleports, turns, chat and block changes come in
-- any order.
pub heard-run :
    (fl : Floats) (es : List Event) (w : World) (me eid : ℕ) (q : Player)
    → FloatLaws fl
    → All IsSound es
    → lookup me (run fl es (w, [])).1 ≡ some q
    → length q.out < q.capacity
    → (q.eid == eid) ≡ false
    → heard fl eid q.out none ≡ known (run fl es (w, [])).1 eid
heard-run fl es w me eid q laws sound registered room other =
    let h = run-IsPresent laws es w [] sound (record { placed = tt; distinct = tt; agrees = tt }) in
    (All-lookup (Agrees fl (known (run fl es (w, [])).1)) me _ q registered h.agrees).0 room eid
      other
