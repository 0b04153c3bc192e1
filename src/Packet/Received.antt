-- ===== src/Packet/Received.antt =====
-- The clientbound packets as a client reads them: the layouts that the comments of entity.go,
-- chunk.go, login.go and block.go describe.
use gomc.Prelude.{ℕ, zero, suc, ◌^◌, ◌<◌, ◌≤◌, ◌≡◌, refl, true, false, arith}
use gomc.Prelude.{List, [], ◌∷◌, ◌++◌, length, append-nil, append_assoc, All}
use mathlib.Core.List.{flat_map}
use gomc.Codec.Reader
use gomc.Codec.Reader.{Read, ◌>>=◌, pure, when◌then◌else◌}
use gomc.Codec.Writer
use gomc.Codec.Writer.{len32}
use gomc.Codec.Utf8.{valid}
use gomc.Codec.Reads.{Reads, pure-Reads, bind-Reads, map-Reads, of_eq-Reads, when_true-Reads}
use gomc.Codec.Reads.{when_false-Reads}
use gomc.Codec.Numbers.{fixed-Reads, raw_byte-Reads, bool-Reads}
use gomc.Codec.VarInt.{var_int-Reads}
use gomc.Codec.Compound.{string-Reads, uuid-Reads, len32-Reads}
use gomc.Packet.Sent.Login.{
  LoginProperty, LoginSuccess, encode_login_property, encode_login_success,
}
use gomc.Packet.Sent.Play.{UnloadChunk, encode_unload_chunk}
use gomc.Packet.Sent.Entity.{AddEntity, encode_add_entity}

-- The marker of an absent velocity stands before the angles.
unfoldable pub read_add_entity : Read (ℕ × AddEntity)
read_add_entity = do
  entity_id ← Reader.var_int
  id ← Reader.uuid
  entity_type ← Reader.var_int
  x ← Reader.double
  y ← Reader.double
  z ← Reader.double
  velocity ← Reader.var_int
  pitch ← Reader.angle
  yaw ← Reader.angle
  head_yaw ← Reader.angle
  payload ← Reader.var_int
  pure (
    velocity,
    record {
      entity_id = entity_id;
      id = id;
      entity_type = entity_type;
      x = x;
      y = y;
      z = z;
      pitch = pitch;
      yaw = yaw;
      head_yaw = head_yaw;
      payload = payload;
    },
  )

-- A client reads an AddEntity back, with no velocity, for every value of its fields within their
-- widths and every angle.
pub encode_add_entity-Reads :
    (p : AddEntity)
    → p.entity_id < 2 ^ 32 × (length p.id ≡ 16) × p.entity_type < 2 ^ 32
    → p.x < 2 ^ 64 × p.y < 2 ^ 64 × p.z < 2 ^ 64
    → p.payload < 2 ^ 32
    → Reads read_add_entity (encode_add_entity p) (0, p)
unfolding read_add_entity encode_add_entity
encode_add_entity-Reads p (he, hu, ht) (hx, hy, hz) hd = of_eq-Reads (simp append_assoc) (
    bind-Reads _ (var_int-Reads p.entity_id he) (
      bind-Reads _ (uuid-Reads p.id hu) (
        bind-Reads _ (var_int-Reads p.entity_type ht) (
          bind-Reads _ (fixed-Reads 8 p.x (omega arith)) (
            bind-Reads _ (fixed-Reads 8 p.y (omega arith)) (
              bind-Reads _ (fixed-Reads 8 p.z (omega arith)) (
                bind-Reads _ (var_int-Reads 0 (omega arith)) (
                  bind-Reads _ (raw_byte-Reads p.pitch) (
                    bind-Reads _ (raw_byte-Reads p.yaw) (
                      bind-Reads _ (raw_byte-Reads p.head_yaw)
                        (map-Reads _ (var_int-Reads p.payload hd))))))))))))

unfoldable pub read_unload_chunk : Read UnloadChunk
read_unload_chunk = do z ← Reader.int; x ← Reader.int; pure (record { x = x; z = z })

-- A client that reads z before x reads an UnloadChunk back.
pub encode_unload_chunk-Reads :
    (p : UnloadChunk)
    → p.x < 2 ^ 32
    → p.z < 2 ^ 32
    → Reads read_unload_chunk (encode_unload_chunk p) p
unfolding read_unload_chunk encode_unload_chunk
encode_unload_chunk-Reads p hx hz =
    bind-Reads _ (fixed-Reads 4 p.z (omega arith)) (map-Reads _ (fixed-Reads 4 p.x (omega arith)))

unfoldable pub read_signature : Read (List ℕ)
read_signature = do signed ← Reader.bool; (when signed then Reader.string 0 else pure [])

unfoldable pub read_property : Read LoginProperty
read_property = do
  name ← Reader.string 0
  value ← Reader.string 0
  signature ← read_signature
  pure (record { name = name; value = value; signature = signature })

unfoldable pub read_properties : ℕ → Read (List LoginProperty)
read_properties zero = pure []
read_properties (suc n) = do p ← read_property; ps ← read_properties n; pure (p ∷ ps)

unfoldable pub read_login_success : Read LoginSuccess
read_login_success = do
  id ← Reader.uuid
  name ← Reader.string 16
  n ← Reader.var_int
  properties ← read_properties n
  pure (record { id = id; name = name; properties = properties })

-- A string of valid UTF-8 within `cap` bytes.
abbrev pub IsText : ℕ → List ℕ → Type 0
IsText cap s = (valid s ≡ true) × (length s ≤ cap)

abbrev pub IsProperty : LoginProperty → Type 0
IsProperty p = IsText 131068 p.name × IsText 131068 p.value × IsText 131068 p.signature

read_signature-Reads :
    (s : List ℕ)
    → IsText 131068 s
    → Reads read_signature
        (elim s [ [] ↦ Writer.bool false | c ∷ cs ↦ Writer.bool true ++ Writer.string (c ∷ cs) ])
        s
unfolding read_signature
read_signature-Reads [] h =
    of_eq-Reads (append-nil _)
      (bind-Reads _ (bool-Reads false) (when_false-Reads _ _ refl (pure-Reads [])))
read_signature-Reads (c ∷ cs) (ok, fits) =
    bind-Reads _ (bool-Reads true)
      (when_true-Reads _ _ refl (string-Reads 0 (c ∷ cs) ok fits (omega arith)))

read_property-Reads :
    (p : LoginProperty) → IsProperty p → Reads read_property (encode_login_property p) p
unfolding read_property encode_login_property
read_property-Reads p ((n, nl), (v, vl), sg) = of_eq-Reads (simp append_assoc) (
    bind-Reads _ (string-Reads 0 p.name n nl (omega arith)) (
      bind-Reads _ (string-Reads 0 p.value v vl (omega arith))
        (map-Reads _ (read_signature-Reads p.signature sg))))

read_properties-Reads :
    (ps : List LoginProperty)
    → All IsProperty ps
    → Reads (read_properties (length ps)) (flat_map encode_login_property ps) ps
unfolding read_properties flat_map
read_properties-Reads [] h = pure-Reads []
read_properties-Reads (p ∷ ps) (hp, hps) =
    bind-Reads _ (read_property-Reads p hp) (map-Reads _ (read_properties-Reads ps hps))

-- A client reads a LoginSuccess back: a UUID of 16 bytes, a name of valid UTF-8 within 64 bytes,
-- and fewer than 2^31 properties of valid UTF-8 within 131068 bytes a string, signed or not.
pub encode_login_success-Reads :
    (p : LoginSuccess)
    → length p.id ≡ 16
    → IsText 64 p.name
    → (length p.properties < 2 ^ 31) × All IsProperty p.properties
    → Reads read_login_success (encode_login_success p) p
unfolding read_login_success encode_login_success
encode_login_success-Reads p hu (n, nl) (few, hp) = of_eq-Reads (simp append_assoc) (
    bind-Reads _ (uuid-Reads p.id hu) (
      bind-Reads _ (string-Reads 16 p.name n nl (omega arith)) (
        bind-Reads _ (len32-Reads p.properties few)
          (map-Reads _ (read_properties-Reads p.properties hp)))))
