-- ===== src/Packet/Sent/Login.antt =====
-- internal/protocol/packet: the clientbound packets of status.go and login.go.
use gomc.Prelude.{ℕ, List, [], ◌∷◌, ◌++◌, Bool, true, false}
use mathlib.Core.List.{flat_map}
use gomc.Codec.Writer.{bool, long, var_int, len32}
use gomc.Codec.Writer.{string, uuid, byte_array}

-- The empty signature is an unsigned property. The same lines are in entity.go.
pub record LoginProperty : Type 0 where
  pub name : List ℕ
  pub value : List ℕ
  pub signature : List ℕ

unfoldable pub encode_login_property : LoginProperty → List ℕ
encode_login_property p =
    string p.name
    ++ string p.value
    ++ (elim p.signature [ [] ↦ bool false | c ∷ cs ↦ bool true ++ string (c ∷ cs) ])

pub record EncryptionRequest : Type 0 where
  pub server_id : List ℕ
  pub public_key : List ℕ
  pub verify_token : List ℕ
  pub should_authenticate : Bool

unfoldable pub encode_encryption_request : EncryptionRequest → List ℕ
encode_encryption_request p =
    string p.server_id
    ++ byte_array p.public_key
    ++ byte_array p.verify_token
    ++ bool p.should_authenticate

pub record SetCompression : Type 0 where
  pub threshold : ℕ

unfoldable pub encode_set_compression : SetCompression → List ℕ
encode_set_compression p = var_int p.threshold

pub record LoginSuccess : Type 0 where
  pub id : List ℕ
  pub name : List ℕ
  pub properties : List LoginProperty

unfoldable pub encode_login_success : LoginSuccess → List ℕ
encode_login_success p =
    uuid p.id
    ++ string p.name
    ++ var_int (len32 p.properties)
    ++ flat_map encode_login_property p.properties

pub record StatusResponse : Type 0 where
  pub json : List ℕ

unfoldable pub encode_status_response : StatusResponse → List ℕ
encode_status_response p = string p.json

pub record StatusPong : Type 0 where
  pub payload : ℕ

unfoldable pub encode_status_pong : StatusPong → List ℕ
encode_status_pong p = long p.payload
