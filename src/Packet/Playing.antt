-- ===== src/Packet/Playing.antt =====
-- internal/protocol/packet: the serverbound packets of Play, of play.go, block.go, chat.go and
-- inventory.go.
use gomc.Prelude.{ℕ, zero, suc, ◌+◌, bit_and, ltb, ◌==◌}
use gomc.Prelude.{List, [], ◌∷◌, length, get_or, drop, none, some, Bool, true, false}
use gomc.Prelude.{if◌then◌else◌}
use gomc.Codec.Reader.{Read, ◌>>=◌, pure, when◌then◌else◌, is_negative, add_group}
use gomc.Codec.Reader.{byte, u_byte, short, float, double, var_int, string}
use gomc.Codec.Reader.{position, remaining_bytes}

-- `for i > 0 && b[i-1]&0x80 != 0 { i-- }`
unfoldable pub scan_back : List ℕ → ℕ → ℕ
scan_back b zero = 0
scan_back b (suc i) =
    let back = scan_back b i in if bit_and (get_or b i 0) 0x80 == 0 then suc i else back

-- `for ; i < len(b); i++`, on the bytes from `i` on.
unfoldable pub gather : List ℕ → ℕ → ℕ → ℕ
gather [] result shift = result
gather (b ∷ bs) result shift = gather bs (add_group 32 result b shift) (shift + 7)

unfoldable pub trailing_var_int : List ℕ → ℕ
trailing_var_int [] = 0
trailing_var_int (b ∷ bs) = gather (drop (scan_back (b ∷ bs) (length bs)) (b ∷ bs)) 0 0

pub record ConfirmTeleport : Type 0 where
  pub teleport_id : ℕ

unfoldable pub decode_confirm_teleport : Read ConfirmTeleport
decode_confirm_teleport = do teleport_id ← var_int; pure (record { teleport_id = teleport_id })

pub record MovePlayerPos : Type 0 where
  pub x : ℕ
  pub y : ℕ
  pub z : ℕ
  pub flags : ℕ

unfoldable pub decode_move_player_pos : Read MovePlayerPos
decode_move_player_pos = do
  x ← double
  y ← double
  z ← double
  flags ← byte
  pure (record { x = x; y = y; z = z; flags = flags })

pub record MovePlayerPosRot : Type 0 where
  pub x : ℕ
  pub y : ℕ
  pub z : ℕ
  pub yaw : ℕ
  pub pitch : ℕ
  pub flags : ℕ

unfoldable pub decode_move_player_pos_rot : Read MovePlayerPosRot
decode_move_player_pos_rot = do
  x ← double
  y ← double
  z ← double
  yaw ← float
  pitch ← float
  flags ← byte
  pure (record { x = x; y = y; z = z; yaw = yaw; pitch = pitch; flags = flags })

pub record MovePlayerRot : Type 0 where
  pub yaw : ℕ
  pub pitch : ℕ
  pub flags : ℕ

unfoldable pub decode_move_player_rot : Read MovePlayerRot
decode_move_player_rot = do
  yaw ← float
  pitch ← float
  flags ← byte
  pure (record { yaw = yaw; pitch = pitch; flags = flags })

pub record ChatMessage : Type 0 where
  pub message : List ℕ

unfoldable pub decode_chat_message : Read ChatMessage
decode_chat_message = do message ← string 256; pure (record { message = message })

pub record PlayerAction : Type 0 where
  pub status : ℕ
  pub x : ℕ
  pub y : ℕ
  pub z : ℕ
  pub face : ℕ
  pub sequence : ℕ

unfoldable pub decode_player_action : Read PlayerAction
decode_player_action = do
  status ← var_int
  (x, y, z) ← position
  face ← u_byte
  sequence ← var_int
  pure (record { status = status; x = x; y = y; z = z; face = face; sequence = sequence })

pub record UseItemOn : Type 0 where
  pub hand : ℕ
  pub x : ℕ
  pub y : ℕ
  pub z : ℕ
  pub face : ℕ
  pub sequence : ℕ

unfoldable pub decode_use_item_on : Read UseItemOn
decode_use_item_on = do
  hand ← var_int
  (x, y, z) ← position
  face ← var_int
  rest ← remaining_bytes
  pure (record {
    hand = hand;
    x = x;
    y = y;
    z = z;
    face = face;
    sequence = trailing_var_int (elim rest [ none ↦ [] | some b ↦ b ]);
  })

pub record SetCarriedItem : Type 0 where
  pub slot : ℕ

unfoldable pub decode_set_carried_item : Read SetCarriedItem
decode_set_carried_item = do slot ← short; pure (record { slot = slot })

pub record SetCreativeModeSlot : Type 0 where
  pub slot : ℕ
  pub item_id : ℕ
  pub has_item : Bool

-- The branch `count > 0`.
unfoldable pub decode_item : ℕ → Read SetCreativeModeSlot
decode_item slot = do
  item_id ← var_int
  pure (record { slot = slot; item_id = item_id; has_item = true })

-- `count > 0` of an int32.
abbrev pub is_positive : ℕ → Bool
is_positive n = if is_negative n then false else ltb 0 n

unfoldable pub decode_set_creative_mode_slot : Read SetCreativeModeSlot
decode_set_creative_mode_slot = do
  slot ← short
  count ← var_int
  (when is_positive count
      then decode_item slot
      else pure (record { slot = slot; item_id = 0; has_item = false }))
