-- ===== src/Packet/Moved.antt =====
-- The clientbound packets of entity.go that despawn or move an entity, as a client reads them.
use gomc.Prelude.{ℕ, zero, suc, ◌^◌, ◌<◌, arith, All}
use gomc.Prelude.{List, [], ◌∷◌, length, append_assoc}
use mathlib.Core.List.{flat_map}
use gomc.Codec.Reader
use gomc.Codec.Reader.{Read, ◌>>=◌, pure}
use gomc.Codec.Writer
use gomc.Codec.Reads.{Reads, pure-Reads, bind-Reads, map-Reads, of_eq-Reads}
use gomc.Codec.Numbers.{fixed-Reads, raw_byte-Reads, bool-Reads}
use gomc.Codec.VarInt.{var_int-Reads}
use gomc.Codec.Compound.{len32-Reads}
use gomc.Packet.Sent.Entity.{RemoveEntities, encode_remove_entities, RotateHead, encode_rotate_head}
use gomc.Packet.Sent.Entity.{MoveEntityPos, encode_move_entity_pos}
use gomc.Packet.Sent.Entity.{MoveEntityPosRot, encode_move_entity_pos_rot}
use gomc.Packet.Sent.Entity.{MoveEntityRot, encode_move_entity_rot}

unfoldable pub read_ids : ℕ → Read (List ℕ)
read_ids zero = pure []
read_ids (suc n) = do i ← Reader.var_int; is ← read_ids n; pure (i ∷ is)

unfoldable pub read_remove_entities : Read RemoveEntities
read_remove_entities = do n ← Reader.var_int; ids ← read_ids n; pure (record { entity_ids = ids })

unfoldable pub read_move_entity_pos : Read MoveEntityPos
read_move_entity_pos = do
  entity_id ← Reader.var_int
  dx ← Reader.short
  dy ← Reader.short
  dz ← Reader.short
  on_ground ← Reader.bool
  pure (record { entity_id = entity_id; dx = dx; dy = dy; dz = dz; on_ground = on_ground })

unfoldable pub read_move_entity_pos_rot : Read MoveEntityPosRot
read_move_entity_pos_rot = do
  entity_id ← Reader.var_int
  dx ← Reader.short
  dy ← Reader.short
  dz ← Reader.short
  yaw ← Reader.angle
  pitch ← Reader.angle
  on_ground ← Reader.bool
  pure (record {
    entity_id = entity_id;
    dx = dx;
    dy = dy;
    dz = dz;
    yaw = yaw;
    pitch = pitch;
    on_ground = on_ground;
  })

unfoldable pub read_move_entity_rot : Read MoveEntityRot
read_move_entity_rot = do
  entity_id ← Reader.var_int
  yaw ← Reader.angle
  pitch ← Reader.angle
  on_ground ← Reader.bool
  pure (record { entity_id = entity_id; yaw = yaw; pitch = pitch; on_ground = on_ground })

unfoldable pub read_rotate_head : Read RotateHead
read_rotate_head = do
  entity_id ← Reader.var_int
  head_yaw ← Reader.angle
  pure (record { entity_id = entity_id; head_yaw = head_yaw })

read_ids-Reads :
    (is : List ℕ)
    → All (λ i. i < 2 ^ 32) is
    → Reads (read_ids (length is)) (flat_map Writer.var_int is) is
unfolding read_ids flat_map
read_ids-Reads [] h = pure-Reads []
read_ids-Reads (i ∷ is) (hi, his) =
    bind-Reads _ (var_int-Reads i hi) (map-Reads _ (read_ids-Reads is his))

-- A client reads a RemoveEntities back, of fewer than 2^31 entity ids.
pub encode_remove_entities-Reads :
    (p : RemoveEntities)
    → length p.entity_ids < 2 ^ 31
    → All (λ i. i < 2 ^ 32) p.entity_ids
    → Reads read_remove_entities (encode_remove_entities p) p
unfolding read_remove_entities encode_remove_entities
encode_remove_entities-Reads p few small =
    bind-Reads _ (len32-Reads p.entity_ids few) (map-Reads _ (read_ids-Reads p.entity_ids small))

-- A client reads a MoveEntityPos back.
pub encode_move_entity_pos-Reads :
    (p : MoveEntityPos)
    → p.entity_id < 2 ^ 32
    → p.dx < 2 ^ 16 × p.dy < 2 ^ 16 × p.dz < 2 ^ 16
    → Reads read_move_entity_pos (encode_move_entity_pos p) p
unfolding read_move_entity_pos encode_move_entity_pos
encode_move_entity_pos-Reads p he (hx, hy, hz) = of_eq-Reads (simp append_assoc) (
    bind-Reads _ (var_int-Reads p.entity_id he) (
      bind-Reads _ (fixed-Reads 2 p.dx (omega arith)) (
        bind-Reads _ (fixed-Reads 2 p.dy (omega arith)) (
          bind-Reads _ (fixed-Reads 2 p.dz (omega arith)) (map-Reads _ (bool-Reads p.on_ground))))))

-- A client reads a MoveEntityPosRot back.
pub encode_move_entity_pos_rot-Reads :
    (p : MoveEntityPosRot)
    → p.entity_id < 2 ^ 32
    → p.dx < 2 ^ 16 × p.dy < 2 ^ 16 × p.dz < 2 ^ 16
    → Reads read_move_entity_pos_rot (encode_move_entity_pos_rot p) p
unfolding read_move_entity_pos_rot encode_move_entity_pos_rot
encode_move_entity_pos_rot-Reads p he (hx, hy, hz) = of_eq-Reads (simp append_assoc) (
    bind-Reads _ (var_int-Reads p.entity_id he) (
      bind-Reads _ (fixed-Reads 2 p.dx (omega arith)) (
        bind-Reads _ (fixed-Reads 2 p.dy (omega arith)) (
          bind-Reads _ (fixed-Reads 2 p.dz (omega arith)) (
            bind-Reads _ (raw_byte-Reads p.yaw)
              (bind-Reads _ (raw_byte-Reads p.pitch) (map-Reads _ (bool-Reads p.on_ground))))))))

-- A client reads a MoveEntityRot back.
pub encode_move_entity_rot-Reads :
    (p : MoveEntityRot)
    → p.entity_id < 2 ^ 32
    → Reads read_move_entity_rot (encode_move_entity_rot p) p
unfolding read_move_entity_rot encode_move_entity_rot
encode_move_entity_rot-Reads p he = of_eq-Reads (simp append_assoc) (
    bind-Reads _ (var_int-Reads p.entity_id he) (
      bind-Reads _ (raw_byte-Reads p.yaw)
        (bind-Reads _ (raw_byte-Reads p.pitch) (map-Reads _ (bool-Reads p.on_ground)))))

-- A client reads a RotateHead back.
pub encode_rotate_head-Reads :
    (p : RotateHead) → p.entity_id < 2 ^ 32 → Reads read_rotate_head (encode_rotate_head p) p
unfolding read_rotate_head encode_rotate_head
encode_rotate_head-Reads p he =
    bind-Reads _ (var_int-Reads p.entity_id he) (map-Reads _ (raw_byte-Reads p.head_yaw))
