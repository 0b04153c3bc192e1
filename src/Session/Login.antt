-- ===== src/Session/Login.antt =====
-- internal/net/session/session.go: the handlers up to Configuration.
use gomc.Prelude.{
  ℕ, ◌%◌, ◌^◌, ◌==◌, ◌||◌, pos, negsuc, ℤ, List, [], ◌∷◌, length, Option, none, some,
}
use gomc.Prelude.{Bool, true, false, ◌&&◌}
use gomc.Auth.{server_hash, offline_uuid}
use gomc.Codec.Uuid.{parse_uuid}
use gomc.Codec.Writer.{string}
use gomc.Frame.Conn
use gomc.Frame.Conn.{enable_encryption, set_compression_threshold}
use gomc.Packet.Clientbound.{Clientbound}
use gomc.Packet.Joining.{Handshake, StatusPing, LoginStart, EncryptionResponse}
use gomc.Packet.Registry.{State}
use gomc.Packet.Sent.Configuration.{RegistryData}
use gomc.Session.State.{Deps, SessionError, Act, Profile, ◌>>◌, done, fail, modify}
use gomc.Session.State.{reading, branch, given, send}

abbrev pub to_state : State → Act
to_state st = modify (λ s. record s { state = st })

unfoldable pub on_handshake : Handshake → Act
on_handshake p = branch (p.next_state == 1) (to_state State.status) (
    branch (p.next_state == 2 || (p.next_state == 3)) (to_state State.login)
      (fail (SessionError.invalid_next_state p.next_state)))

unfoldable pub on_status_request : Deps → Act
on_status_request d =
    given SessionError.json d.status_json
      λ j. send d (Clientbound.status_response (record { json = j }))

unfoldable pub on_status_ping : Deps → StatusPing → Act
on_status_ping d p =
    send d (Clientbound.status_pong (record { payload = p.payload })) >> fail SessionError.close

-- What reads a field of KeyPair, which panics where that is nil.
unfoldable pub with_key_pair : Deps → Act → Act
with_key_pair d m = branch d.has_key_pair m (fail SessionError.nil_dereference)

unfoldable pub begin_encryption : Deps → Act
begin_encryption d = given SessionError.rand d.token λ token.
    modify (λ s. record s { verify_token = token })
    >> with_key_pair d (
        send d (
          Clientbound.encryption_request (record {
            server_id = [];
            public_key = d.public_der;
            verify_token = token;
            should_authenticate = true;
          })))

-- `int32(s.opts.CompressionThreshold)`
abbrev pub threshold32 : ℤ → ℕ
threshold32 (pos t) = t % 2 ^ 32
threshold32 (negsuc t) = 0

abbrev pub is_pos : ℤ → Bool
is_pos (pos t) = true
is_pos (negsuc t) = false

unfoldable pub set_compression : Deps → Act
set_compression d =
    send d
      (Clientbound.set_compression (record { threshold = threshold32 d.compression_threshold }))
    >> modify (λ s. record s { conn = set_compression_threshold d.compression_threshold s.conn })

unfoldable pub send_success : Deps → Act
send_success d = reading λ s. send d (
    Clientbound.login_success
      (record { id = s.uuid; name = s.username; properties = s.properties }))

unfoldable pub finish_login : Deps → Act
finish_login d = branch (is_pos d.compression_threshold) (set_compression d) done >> send_success d

unfoldable pub on_login_start : Deps → LoginStart → Act
on_login_start d p =
    modify (λ s. record s { username = p.name })
    >> branch d.online_mode (begin_encryption d)
        (modify (λ s. record s { uuid = offline_uuid d.md5 p.name }) >> finish_login d)

-- `bytes.Equal`
unfoldable pub same_bytes : List ℕ → List ℕ → Bool
same_bytes [] [] = true
same_bytes [] (b ∷ bs) = false
same_bytes (a ∷ as_) [] = false
same_bytes (a ∷ as_) (b ∷ bs) = a == b && same_bytes as_ bs

-- A nil slice has no bytes.
abbrev pub bytes_of : Option (List ℕ) → List ℕ
bytes_of o = elim o [ none ↦ [] | some b ↦ b ]

-- `s.conn.EnableEncryption(secret)`
unfoldable pub encrypted : Conn.Result (Unit {0} × Conn.Conn) → Act
encrypted (Conn.err e) = fail (SessionError.encryption e)
encrypted (Conn.ok (u, conn')) = modify (λ s. record s { conn = conn' })

unfoldable pub encrypt : Deps → List ℕ → Act
encrypt d secret = reading λ s. encrypted (enable_encryption d.aes secret s.conn)

-- `profile.UUID()`
abbrev pub profile_uuid : Profile → Option (List ℕ)
profile_uuid p = parse_uuid p.id

-- The authenticated profile becomes the session's.
unfoldable pub adopt : Profile → List ℕ → Act
adopt profile uuid =
    modify λ s. record s { username = profile.name; uuid = uuid; properties = profile.properties }

unfoldable pub verify_join : Deps → List ℕ → Act
verify_join d secret = reading λ s.
    given SessionError.authenticate
      (d.authenticate s.username (server_hash d.sha1 [] secret d.public_der))
      λ profile.
        given SessionError.profile_uuid (profile_uuid profile)
          λ uuid. adopt profile uuid >> finish_login d

-- The check of the echoed token, which is right if no byte differs.
unfoldable pub check_token : List ℕ → Act
check_token token =
    reading λ s. branch (same_bytes token s.verify_token) done (fail SessionError.token_mismatch)

-- The handler from the first Decrypt on, once that has found a key.
unfoldable pub decrypt_response : Deps → EncryptionResponse → Act
decrypt_response d p =
    given SessionError.decrypt_secret (d.decrypt (bytes_of p.shared_secret)) λ secret.
      branch (length secret == 16) done (fail SessionError.secret_length)
      >> given SessionError.decrypt_token (d.decrypt (bytes_of p.verify_token)) check_token
      >> encrypt d secret
      >> verify_join d secret

unfoldable pub on_encryption_response : Deps → EncryptionResponse → Act
on_encryption_response d p = with_key_pair d (decrypt_response d p)

-- "gomc", "minecraft:brand", "minecraft:vanilla", "minecraft", "core" and the game's version.
abbrev pub brand : List ℕ
brand = string (b'g' ∷ b'o' ∷ b'm' ∷ b'c' ∷ [])

abbrev pub minecraft : List ℕ
minecraft = b'm' ∷ b'i' ∷ b'n' ∷ b'e' ∷ b'c' ∷ b'r' ∷ b'a' ∷ b'f' ∷ b't' ∷ []

abbrev pub brand_channel : List ℕ
brand_channel =
    b'm' ∷ b'i' ∷ b'n' ∷ b'e' ∷ b'c' ∷ b'r' ∷ b'a' ∷ b'f' ∷ b't' ∷ b':' ∷ b'b' ∷ b'r' ∷ b'a' ∷ b'n'
    ∷ b'd' ∷ []

abbrev pub vanilla : List ℕ
vanilla =
    b'm' ∷ b'i' ∷ b'n' ∷ b'e' ∷ b'c' ∷ b'r' ∷ b'a' ∷ b'f' ∷ b't' ∷ b':' ∷ b'v' ∷ b'a' ∷ b'n' ∷ b'i'
    ∷ b'l' ∷ b'l' ∷ b'a' ∷ []

abbrev pub core : List ℕ
core = b'c' ∷ b'o' ∷ b'r' ∷ b'e' ∷ []

abbrev pub game_version : List ℕ
game_version = b'2' ∷ b'6' ∷ b'.' ∷ b'1' ∷ b'.' ∷ b'2' ∷ []

unfoldable pub enter_configuration : Deps → Act
enter_configuration d =
    send d (Clientbound.plugin_message (record { channel = brand_channel; payload = brand }))
    >> send d (Clientbound.feature_flags (record { flags = vanilla ∷ [] }))
    >> send d (
        Clientbound.known_packs (record {
          packs = record { namespace = minecraft; id = core; version = game_version } ∷ [];
        }))

unfoldable pub on_login_acknowledged : Deps → Act
on_login_acknowledged d = to_state State.configuration >> enter_configuration d

unfoldable pub send_registries : Deps → List RegistryData → Act
send_registries d [] = done
send_registries d (rd ∷ rds) = send d (Clientbound.registry_data rd) >> send_registries d rds

unfoldable pub on_known_packs : Deps → Act
on_known_packs d =
    send_registries d d.synced_data
    >> send d (Clientbound.update_tags (record { payload = d.tags }))
    >> send d Clientbound.finish_configuration
