-- ===== src/Hub/View.antt =====
-- A client of internal/game/loop/hub.go: where it takes an entity to be, from the packets in its
-- channel.
use gomc.Prelude.{ℕ, ◌==◌, ◌||◌, Bool, false, Option, none, some, if◌then◌else◌}
use gomc.Prelude.{List, [], ◌∷◌}
use gomc.Codec.Reader
use gomc.Codec.Reader.{Read, ◌>>=◌, pure, new_reader}
use gomc.Packet.Ids.{Sent, id}
use gomc.Packet.Received.{read_add_entity}
use gomc.Packet.Moved.{read_remove_entities, read_move_entity_pos, read_move_entity_pos_rot}
use gomc.Packet.Moved.{read_move_entity_rot, read_rotate_head}
use gomc.Hub.{Player, lookup}
use gomc.Hub.Floats.{Floats}
use gomc.Hub.Move.{advance}

pub record Place : Type 0 where
  pub x : ℕ
  pub y : ℕ
  pub z : ℕ
  pub yaw : ℕ
  pub pitch : ℕ
  pub head_yaw : ℕ

-- Where the registry has a player.
abbrev pub place : Player → Place
place p = record { x = p.x; y = p.y; z = p.z; yaw = p.yaw; pitch = p.pitch; head_yaw = p.yaw }

abbrev pub change : (Place → Place) → Option Place → Option Place
change f none = none
change f (some q) = some (f q)

unfoldable pub known : List Player → ℕ → Option Place
known ps eid = elim (lookup eid ps) [ none ↦ none | some p ↦ some (place p) ]

unfoldable pub among : ℕ → List ℕ → Bool
among eid [] = false
among eid (i ∷ is) = (i == eid) || among eid is

abbrev pub turn : ℕ → ℕ → Place → Place
turn yaw pitch q = record q { yaw = yaw; pitch = pitch }

module _ (fl : Floats) where
  abbrev pub displace : ℕ → ℕ → ℕ → Place → Place
  displace dx dy dz q = record q {
    x = advance fl q.x dx;
    y = advance fl q.y dy;
    z = advance fl q.z dz;
  }

  -- What a packet of a number says of an entity. A packet that only turns an entity moves it by
  -- zero; a packet of another number says nothing.
  unfoldable pub told : ℕ → ℕ → Read (Option Place → Option Place)
  told eid n =
      if n == id Sent.add_entity
      then (do
        (_, a) ← read_add_entity
        pure (λ v.
            if a.entity_id == eid
            then some (record {
              x = a.x;
              y = a.y;
              z = a.z;
              yaw = a.yaw;
              pitch = a.pitch;
              head_yaw = a.head_yaw;
            })
            else v))
      else if n == id Sent.remove_entities
      then (do r ← read_remove_entities; pure (λ v. if among eid r.entity_ids then none else v))
      else if n == id Sent.move_entity_pos
      then (do
        m ← read_move_entity_pos
        pure (λ v. if m.entity_id == eid then change (displace m.dx m.dy m.dz) v else v))
      else if n == id Sent.move_entity_pos_rot
      then (do
        m ← read_move_entity_pos_rot
        pure (λ v.
            if m.entity_id == eid
            then change (λ q. turn m.yaw m.pitch (displace m.dx m.dy m.dz q)) v
            else v))
      else if n == id Sent.move_entity_rot
      then (do
        m ← read_move_entity_rot
        pure (λ v.
            if m.entity_id == eid
            then change (λ q. turn m.yaw m.pitch (displace 0 0 0 q)) v
            else v))
      else if n == id Sent.rotate_head
      then (do
        h ← read_rotate_head
        pure (λ v.
            if h.entity_id == eid then change (λ q. record q { head_yaw = h.head_yaw }) v else v))
      else pure (λ v. v)

  unfoldable pub read_packet : ℕ → Read (Option Place → Option Place)
  read_packet eid = do n ← Reader.var_int; told eid n

  unfoldable pub see : ℕ → List ℕ → Option Place → Option Place
  see eid packet v = (read_packet eid (new_reader packet)).0 v

  -- The packets of a channel, the first one first.
  unfoldable pub heard : ℕ → List (List ℕ) → Option Place → Option Place
  heard eid [] v = v
  heard eid (b ∷ bs) v = heard eid bs (see eid b v)
