-- ===== src/Session/State.antt =====
-- internal/net/session/session.go: the Session, what it uses of other parts, and its handlers'
-- sequencing. Logging is left out. A float is the word of its bits, an int32 its word.
use gomc.Prelude.{ℕ, ℤ, Bool, true, false, List, ◌∷◌, Option, none, some, if◌then◌else◌}
use gomc.Codec.Reader.{Error}
use gomc.Frame.Conn.{Conn, FrameError, Zlib, write_packet}
use gomc.Packet.Registry.{State}
use gomc.Packet.Clientbound.{Clientbound, encode}
use gomc.Packet.Sent.Login.{LoginProperty}
use gomc.Packet.Sent.Configuration.{RegistryData}
use gomc.World.Blocks.{World}

-- `close` is errClose. `runaway` stands for a loop that does not end. The last two are run-time
-- panics, which nothing recovers from and which end the whole program.
pub data SessionError : Type 0 where
  close : SessionError
  decoding : Error → SessionError
  invalid_next_state : ℕ → SessionError
  json rand decrypt_secret secret_length decrypt_token token_mismatch : SessionError
  encryption : FrameError → SessionError
  authenticate profile_uuid write runaway : SessionError
  index_out_of_range nil_dereference : SessionError

-- Whether a handler ends in a run-time panic.
unfoldable pub panics : Option SessionError → Bool
panics (some SessionError.index_out_of_range) = true
panics (some SessionError.nil_dereference) = true
panics _ = false

-- auth.Profile, with its ID as text.
pub record Profile : Type 0 where
  pub id : List ℕ
  pub name : List ℕ
  pub properties : List LoginProperty

-- The options, and what the code takes from libraries, from the outside and from embedded data.
pub record Deps : Type 0 where
  pub online_mode : Bool
  pub compression_threshold : ℤ
  -- The world as it stands when a packet is handled; `none` is a nil World.
  pub world : Option World
  -- Whether there is a Hub, and the answer of its NextEntityID.
  pub has_hub : Bool
  pub next_entity_id : ℕ
  -- Whether KeyPair is not nil; `decrypt` and `public_der` are those of the pair, where there is one.
  pub has_key_pair : Bool
  -- compress/zlib, crypto/aes, the RSA key, crypto/md5, crypto/sha1 and crypto/rand.
  pub zlib : Zlib
  pub aes : List ℕ → List ℕ → List ℕ
  pub decrypt : List ℕ → Option (List ℕ)
  pub public_der : List ℕ
  pub md5 : List ℕ → List ℕ
  pub sha1 : List ℕ → List ℕ
  pub token : Option (List ℕ)
  -- Options.Authenticate, of a name and a server hash.
  pub authenticate : List ℕ → List ℕ → Option Profile
  -- Whether the net.Conn takes the next write.
  pub accepts : Conn → Bool
  -- json.Marshal of the status.
  pub status_json : Option (List ℕ)
  -- math.Floor of a float's sixteenth, as an int32.
  pub chunk_of : ℕ → ℕ
  -- registry.SyncedData and registry.Tags.
  pub synced_data : List RegistryData
  pub tags : List ℕ
  -- The embedded tables of package world.
  pub item_to_block : ℕ → Option ℕ
  pub item_to_axis : ℕ → Option (ℕ × ℕ × ℕ)

-- What a session asks of the hub.
pub data HubRequest : Type 0 where
  join : (eid : ℕ) (uuid name : List ℕ) (properties : List LoginProperty) (x y z : ℕ) → HubRequest
  leave : (eid : ℕ) → HubRequest
  move : (eid x y z yaw pitch : ℕ) (on_ground : Bool) → HubRequest
  chat : (eid : ℕ) (message : List ℕ) → HubRequest
  set_block : (x y z block_state : ℕ) → HubRequest

-- `sent` and `requests` record what was sent and asked, the latest first; the program has no such
-- fields. The map `loaded` is the list of its keys.
pub record Session : Type 0 where
  pub conn : Conn
  pub state : State
  pub username : List ℕ
  pub uuid : List ℕ
  pub properties : List LoginProperty
  pub verify_token : List ℕ
  pub entity_id : ℕ
  pub chunk_x : ℕ
  pub chunk_z : ℕ
  pub loaded : List (ℕ × ℕ)
  pub joined : Bool
  pub pos_x : ℕ
  pub pos_y : ℕ
  pub pos_z : ℕ
  pub yaw : ℕ
  pub pitch : ℕ
  pub on_ground : Bool
  pub hotbar : List ℕ
  pub selected_slot : ℕ
  pub sent : List Clientbound
  pub requests : List HubRequest

-- A handler gives its error, if any, and the session afterwards.
abbrev pub Act : Type 0
Act = Session → Option SessionError × Session

-- `if err := m(); err != nil { return err }; return k()`
infixl 5 ◌>>◌
unfoldable pub ◌>>◌ : Act → Act → Act
◌>>◌ m k s = let (e, s') = m s in elim e [ none ↦ k s' | some f ↦ (some f, s') ]

unfoldable pub done : Act
done s = (none, s)

unfoldable pub fail : SessionError → Act
fail e s = (some e, s)

unfoldable pub modify : (Session → Session) → Act
modify f s = (none, f s)

-- The rest of a handler, which reads the session.
unfoldable pub reading : (Session → Act) → Act
reading f s = f s s

unfoldable pub branch : Bool → Act → Act → Act
branch b m k s = if b then m s else k s

-- The rest of a handler, with the value of a call that may fail.
unfoldable pub given : {A : Type 0} → SessionError → Option A → (A → Act) → Act
given e o f s = elim o [ none ↦ (some e, s) | some a ↦ f a s ]

unfoldable pub request : HubRequest → Act
request q s = (none, record s { requests = q ∷ s.requests })

-- `send` and `sendRaw`.
unfoldable pub send : Deps → Clientbound → Act
send d p s =
    if d.accepts s.conn
    then (none, record s { conn = write_packet d.zlib (encode p) s.conn; sent = p ∷ s.sent })
    else (some SessionError.write, s)
