-- ===== src/Session/Play.antt =====
-- internal/net/session/session.go: the handlers of Play.
use gomc.Prelude.{ℕ, ◌+◌, ◌-◌, ◌%◌, ◌^◌, bit_and, ltb, ◌==◌, ◌&&◌, ◌||◌, not, Bool, true, false}
use gomc.Prelude.{List, [], ◌∷◌, length, get_or, set, replicate, if◌then◌else◌}
use gomc.Codec.Reader.{is_negative}
use gomc.Packet.Clientbound.{Clientbound}
use gomc.Packet.Playing.{PlayerAction, UseItemOn, SetCreativeModeSlot, SetCarriedItem, ChatMessage}
use gomc.Packet.Playing.{MovePlayerPos, MovePlayerPosRot, MovePlayerRot}
use gomc.Session.State.{Deps, Session, SessionError, Act, HubRequest, ◌>>◌, done, modify, fail}
use gomc.Session.State.{reading, branch, send, request}
use gomc.Session.Chunks.{update_chunks, view_distance, add32, sub32}
use gomc.World.Items.{block_state_for_item_axis}
use gomc.World.Chunk.{air}

-- -1 as an int32.
abbrev pub empty_slot : ℕ
empty_slot = 2 ^ 32 - 1

-- math.MinInt32
abbrev pub min_int32 : ℕ
min_int32 = 2 ^ 31

-- -60 as a float64.
abbrev pub spawn_y : ℕ
spawn_y = 0xc04e_0000_0000_0000

-- "minecraft:overworld", "minecraft:the_nether" and "minecraft:the_end".
abbrev pub overworld : List ℕ
overworld =
    b'm' ∷ b'i' ∷ b'n' ∷ b'e' ∷ b'c' ∷ b'r' ∷ b'a' ∷ b'f' ∷ b't' ∷ b':' ∷ b'o' ∷ b'v' ∷ b'e' ∷ b'r'
    ∷ b'w' ∷ b'o' ∷ b'r' ∷ b'l' ∷ b'd' ∷ []

abbrev pub the_nether : List ℕ
the_nether =
    b'm' ∷ b'i' ∷ b'n' ∷ b'e' ∷ b'c' ∷ b'r' ∷ b'a' ∷ b'f' ∷ b't' ∷ b':' ∷ b't' ∷ b'h' ∷ b'e' ∷ b'_'
    ∷ b'n' ∷ b'e' ∷ b't' ∷ b'h' ∷ b'e' ∷ b'r' ∷ []

abbrev pub the_end : List ℕ
the_end =
    b'm' ∷ b'i' ∷ b'n' ∷ b'e' ∷ b'c' ∷ b'r' ∷ b'a' ∷ b'f' ∷ b't' ∷ b':' ∷ b't' ∷ b'h' ∷ b'e' ∷ b'_'
    ∷ b'e' ∷ b'n' ∷ b'd' ∷ []

unfoldable pub login_play : ℕ → Clientbound
login_play eid = Clientbound.login_play (record {
  entity_id = eid;
  hardcore = false;
  dimension_names = overworld ∷ the_nether ∷ the_end ∷ [];
  max_players = 20;
  view_distance = view_distance;
  simulation_distance = view_distance;
  reduced_debug = false;
  enable_respawn_screen = true;
  do_limited_crafting = false;
  dimension_type = 0;
  dimension_name = overworld;
  hashed_seed = 0;
  game_mode = 1;
  previous_game_mode = 0xff;
  is_debug = false;
  is_flat = true;
  has_death_location = false;
  portal_cooldown = 0;
  sea_level = 63;
  enforces_secure_chat = false;
})

-- The entity id and an empty hotbar.
unfoldable pub start_play : Deps → Session → Session
start_play d s = record s {
  entity_id = if d.has_hub then d.next_entity_id else 1;
  hotbar = replicate 9 empty_slot;
}

-- No column is loaded, and the centre is one that no player is at.
unfoldable pub reset_view : Session → Session
reset_view s = record s { loaded = []; chunk_x = min_int32; chunk_z = min_int32 }

unfoldable pub at_spawn : Session → Session
at_spawn s = record s { pos_x = 0; pos_y = spawn_y; pos_z = 0 }

unfoldable pub spawn_position : Session → Clientbound
spawn_position s = Clientbound.sync_player_position (record {
  teleport_id = 1;
  x = s.pos_x;
  y = s.pos_y;
  z = s.pos_z;
  vel_x = 0;
  vel_y = 0;
  vel_z = 0;
  yaw = 0;
  pitch = 0;
  flags = 0;
})

unfoldable pub join_hub : Act
join_hub =
    reading (λ s.
      request (HubRequest.join s.entity_id s.uuid s.username s.properties s.pos_x s.pos_y s.pos_z))
    >> modify (λ s. record s { joined = true })

-- Up to the initial load.
unfoldable pub announce : Deps → Act
announce d =
    modify (start_play d)
    >> reading (λ s. send d (login_play s.entity_id))
    >> send d (Clientbound.game_event (record { event = 13; value = 0 }))
    >> modify reset_view

-- The keep-alive loop and the outbound writer that it starts run beside the handlers, and are left
-- out.
unfoldable pub enter_play : Deps → Act
enter_play d =
    announce d
    >> (update_chunks d 0 0
        >> modify at_spawn
        >> reading (λ s. send d (spawn_position s))
        >> branch d.has_hub join_hub done)

-- `if s.joined && s.opts.Hub != nil { … }`
unfoldable pub ask_hub : Deps → (Session → HubRequest) → Act
ask_hub d q = reading λ s. branch (s.joined && d.has_hub) (request (q s)) done

unfoldable pub handle_move : Deps → Act
handle_move d =
    ask_hub d (λ s. HubRequest.move s.entity_id s.pos_x s.pos_y s.pos_z s.yaw s.pitch s.on_ground)
    >> reading λ s.
      let cx = d.chunk_of s.pos_x in
      let cz = d.chunk_of s.pos_z in
      branch (cx == s.chunk_x && (cz == s.chunk_z)) done (update_chunks d cx cz)

abbrev pub flag : ℕ → Bool
flag flags = not (bit_and flags 1 == 0)

unfoldable pub on_move_pos : Deps → MovePlayerPos → Act
on_move_pos d p =
    modify (λ s. record s { pos_x = p.x; pos_y = p.y; pos_z = p.z; on_ground = flag p.flags })
    >> handle_move d

unfoldable pub on_move_pos_rot : Deps → MovePlayerPosRot → Act
on_move_pos_rot d p =
    modify (λ s. record s {
      pos_x = p.x;
      pos_y = p.y;
      pos_z = p.z;
      yaw = p.yaw;
      pitch = p.pitch;
      on_ground = flag p.flags;
    })
    >> handle_move d

unfoldable pub on_move_rot : Deps → MovePlayerRot → Act
on_move_rot d p =
    modify (λ s. record s { yaw = p.yaw; pitch = p.pitch; on_ground = flag p.flags })
    >> handle_move d

unfoldable pub on_chat : Deps → ChatMessage → Act
on_chat d p = ask_hub d (λ s. HubRequest.chat s.entity_id p.message)

-- A break sets the block to air.
unfoldable pub on_player_action : Deps → PlayerAction → Act
on_player_action d p =
    branch (p.status == 0 || (p.status == 2))
      (send d (Clientbound.block_changed_ack (record { sequence = p.sequence }))
        >> ask_hub d (λ s. HubRequest.set_block p.x p.y p.z air))
      done

-- A negative slot, as a word, is not below 9.
unfoldable pub on_carried_item : SetCarriedItem → Act
on_carried_item p = branch (ltb p.slot 9) (modify (λ s. record s { selected_slot = p.slot })) done

-- `s.hotbar[i]`, read or written, panics where `i` is no index; a negative one, as a word, is none.
unfoldable pub indexed : ℕ → Act → Act
indexed i m = reading λ s. branch (ltb i (length s.hotbar)) m (fail SessionError.index_out_of_range)

-- `s.hotbar[i] = item`
unfoldable pub put_in_hotbar : ℕ → ℕ → Act
put_in_hotbar i item = indexed i (modify (λ s. record s { hotbar = set s.hotbar i item }))

-- A negative slot, as a word, is above 44. The index is an int16.
unfoldable pub on_creative_slot : SetCreativeModeSlot → Act
on_creative_slot p = branch (ltb p.slot 36 || ltb 44 p.slot) done (
    put_in_hotbar ((p.slot + (2 ^ 16 - 36)) % 2 ^ 16)
      (if p.has_item then p.item_id else empty_slot))

unfoldable pub face_to_axis : ℕ → ℕ
face_to_axis face = if ltb face 2 then 1 else if face == 2 || (face == 3) then 2 else 0

unfoldable pub place_against : ℕ → ℕ → ℕ → ℕ → ℕ × ℕ × ℕ
place_against x y z face =
    if face == 0
    then (x, sub32 y 1, z)
    else if face == 1
    then (x, add32 y 1, z)
    else if face == 2
    then (x, y, sub32 z 1)
    else if face == 3
    then (x, y, add32 z 1)
    else if face == 4
    then (sub32 x 1, y, z)
    else if face == 5
    then (add32 x 1, y, z)
    else (x, y, z)

-- `s.hotbar[s.selectedSlot]`, where there is one.
abbrev pub held_item : Session → ℕ
held_item s = get_or s.hotbar s.selected_slot 0

unfoldable pub place_request : ℕ × ℕ × ℕ → ℕ → Act
place_request (x, y, z) block_state = request (HubRequest.set_block x y z block_state)

unfoldable pub place_held : Deps → UseItemOn → ℕ → Act
place_held d p item =
    let found =
      block_state_for_item_axis d.item_to_block d.item_to_axis item (face_to_axis p.face) in
    branch (is_negative item || not found.1) done
      (place_request (place_against p.x p.y p.z p.face) found.0)

unfoldable pub on_use_item_on : Deps → UseItemOn → Act
on_use_item_on d p =
    send d (Clientbound.block_changed_ack (record { sequence = p.sequence }))
    >> reading λ s.
      branch (not s.joined || not d.has_hub) done
        (indexed s.selected_slot (place_held d p (held_item s)))
