-- ===== src/Hub/Heard.antt =====
-- What the packets of the hub say to a client, entity by entity.
use gomc.Prelude.{ℕ, ◌^◌, ◌<◌, ◌≡◌, refl, sym, ap, ◌∙◌, arith}
use gomc.Prelude.{
  List, [], ◌∷◌, ◌++◌, length, append-nil, Bool, ◌&&◌, ◌||◌, ◌==◌, true, false, if◌then◌else◌,
}
use gomc.Prelude.{Option, none, some}
use gomc.Codec.Reader
use gomc.Codec.Reader.{Read, ◌>>=◌, new_reader}
use gomc.Codec.Writer
use gomc.Codec.Reads.{Reads, at, map-Reads}
use gomc.Codec.VarInt.{var_int-Reads}
use gomc.Packet.Ids
use gomc.Packet.Ids.{Sent}
use gomc.Packet.Received.{encode_add_entity-Reads}
use gomc.Packet.Moved.{encode_remove_entities-Reads, encode_move_entity_pos-Reads}
use gomc.Packet.Moved.{encode_move_entity_pos_rot-Reads, encode_move_entity_rot-Reads}
use gomc.Packet.Moved.{encode_rotate_head-Reads}
use gomc.Hub.{Player, encode, spawn, spawn_packet, remove_packet, forget_packet, info_update}
use gomc.Hub.{chat_packet}
use gomc.Hub.Floats.{Floats}
use gomc.Hub.Move.{delta_packet, head_packet}
use gomc.Hub.View.{Place, place, change, displace, turn, among, told, see, heard, read_packet}

-- A packet changes what is known of one entity, by `f`.
abbrev pub Touches : Floats → ℕ → (Option Place → Option Place) → List ℕ → Type 0
Touches fl me f b = (eid : ℕ) (v : Option Place) → see fl eid b v ≡ (if me == eid then f v else v)

-- A packet that says nothing of where an entity is.
abbrev pub Silent : Floats → List ℕ → Type 0
Silent fl b = (eid : ℕ) (v : Option Place) → see fl eid b v ≡ v

-- What a channel needs of a player: an int32 as an id, a UUID of 16 bytes, floats of 64 bits.
abbrev pub IsPlaced : Player → Type 0
IsPlaced p = p.eid < 2 ^ 32 × (length p.uuid ≡ 16) × p.x < 2 ^ 64 × p.y < 2 ^ 64 × p.z < 2 ^ 64

or_false : (b : Bool) → (b || false) ≡ b
or_false true = refl
or_false false = refl

module _ (fl : Floats) where
  see-encode :
      (k : Sent) (body : List ℕ) (eid : ℕ) (v : Option Place)
      → Ids.id k < 2 ^ 32
      → see fl eid (encode k body) v
        ≡ (told fl eid (Ids.id k) (at (Writer.var_int (Ids.id k)) body)).0 v
  unfolding see read_packet encode ◌>>=◌ new_reader
  see-encode k body eid v small =
      ap (λ nr. (told fl eid nr.0 nr.1).0 v) ((var_int-Reads (Ids.id k) small).reads [] body)

  see-Reads :
      (k : Sent) (body : List ℕ) (eid : ℕ) (c : Option Place → Option Place) (v : Option Place)
      → Ids.id k < 2 ^ 32
      → Reads (told fl eid (Ids.id k)) body c
      → see fl eid (encode k body) v ≡ c v
  see-Reads k body eid c v small h =
      see-encode k body eid v small
      ∙ rw (sym (append-nil body)) (rw (h.reads (Writer.var_int (Ids.id k)) []))

  pub spawn-Touches :
      (p : Player) → IsPlaced p → Touches fl p.eid (λ _. some (place p)) (spawn_packet p)
  unfolding spawn_packet spawn told Ids.id
  spawn-Touches p (he, hu, hx, hy, hz) eid v = see-Reads Sent.add_entity _ eid _ v (omega arith) (
      map-Reads _
        (encode_add_entity-Reads (spawn p) (he, hu, omega arith) (hx, hy, hz) (omega arith)))

  pub remove-Touches : (me : ℕ) → me < 2 ^ 32 → Touches fl me (λ _. none) (remove_packet me)
  unfolding remove_packet told Ids.id among
  remove-Touches me small eid v =
      see-Reads Sent.remove_entities _ eid _ v (omega arith) (
        map-Reads _ (
          encode_remove_entities-Reads (record { entity_ids = me ∷ [] }) (omega arith) (small, tt)))
      ∙ rw (or_false (me == eid))

  pub head-Touches :
      (me yaw : ℕ)
      → me < 2 ^ 32
      → Touches fl me (change (λ q. record q { head_yaw = yaw })) (head_packet me yaw)
  unfolding head_packet told Ids.id
  head-Touches me yaw small eid v =
      see-Reads Sent.rotate_head _ eid _ v (omega arith)
        (map-Reads _ (encode_rotate_head-Reads (record { entity_id = me; head_yaw = yaw }) small))

  -- The change that the packet of a delta makes.
  abbrev pub delta_change : Bool → Bool → ℕ → ℕ → ℕ → ℕ → ℕ → Option Place → Option Place
  delta_change pos_moved rotated dx dy dz yaw pitch =
      if pos_moved && rotated
      then change (λ q. turn yaw pitch (displace fl dx dy dz q))
      else if pos_moved
      then change (displace fl dx dy dz)
      else change (λ q. turn yaw pitch (displace fl 0 0 0 q))

  pub delta-Touches :
      (me : ℕ) (pos_moved rotated : Bool) (dx dy dz yaw pitch : ℕ) (ground : Bool)
      → me < 2 ^ 32
      → dx < 2 ^ 16 × dy < 2 ^ 16 × dz < 2 ^ 16
      → Touches fl me
          (delta_change pos_moved rotated dx dy dz yaw pitch)
          (delta_packet fl me pos_moved rotated dx dy dz yaw pitch ground)
  unfolding delta_packet told Ids.id
  delta-Touches me true true dx dy dz yaw pitch ground small deltas eid v =
      see-Reads Sent.move_entity_pos_rot _ eid _ v (omega arith)
        (map-Reads _ (encode_move_entity_pos_rot-Reads _ small deltas))
  delta-Touches me true false dx dy dz yaw pitch ground small deltas eid v =
      see-Reads Sent.move_entity_pos _ eid _ v (omega arith)
        (map-Reads _ (encode_move_entity_pos-Reads _ small deltas))
  delta-Touches me false rotated dx dy dz yaw pitch ground small deltas eid v =
      see-Reads Sent.move_entity_rot _ eid _ v (omega arith)
        (map-Reads _ (encode_move_entity_rot-Reads _ small))

  pub info-Silent : (ps : List Player) → Silent fl (info_update ps)
  unfolding info_update told Ids.id Reader.pure
  info-Silent ps eid v = see-encode Sent.player_info_update _ eid v (omega arith)

  pub forget-Silent : (p : Player) → Silent fl (forget_packet p)
  unfolding forget_packet told Ids.id Reader.pure
  forget-Silent p eid v = see-encode Sent.player_info_remove _ eid v (omega arith)

  pub chat-Silent : (p : Player) (msg : List ℕ) → Silent fl (chat_packet p msg)
  unfolding chat_packet told Ids.id Reader.pure
  chat-Silent p msg eid v = see-encode Sent.system_chat _ eid v (omega arith)

  pub block-Silent : (body : List ℕ) → Silent fl (encode Sent.block_update body)
  unfolding told Ids.id Reader.pure
  block-Silent body eid v = see-encode Sent.block_update body eid v (omega arith)

  pub heard-append :
      (eid : ℕ) (bs : List (List ℕ)) (b : List ℕ) (v : Option Place)
      → heard fl eid (bs ++ (b ∷ [])) v ≡ see fl eid b (heard fl eid bs v)
  unfolding heard
  heard-append eid [] b v = refl
  heard-append eid (c ∷ bs) b v = heard-append eid bs b (see fl eid c v)
