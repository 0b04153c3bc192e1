-- ===== src/Session/Unkeyed.antt =====
-- An encryption response in a session without a key pair, which is every session of a server in
-- offline mode.
use gomc.Prelude.{
  ℕ, ◌^◌, ◌<◌, ◌≡◌, ap, ◌∙◌, arith, List, [], ◌++◌, length, some, false, Option, append-nil,
}
use gomc.Codec.Reader
use gomc.Codec.Writer
use gomc.Codec.Reads.{at, Reads, bind-Reads, map-Reads}
use gomc.Codec.VarInt.{var_int-Reads}
use gomc.Codec.Compound.{byte_array-Reads}
use gomc.Packet.Joining
use gomc.Packet.Registry.{State, Kind, Packet, decode, new_serverbound, serverbound}
use gomc.Packet.Dispatch.{new_serverbound-serverbound}
use gomc.Session.State.{Deps, Session, SessionError, branch, fail, reading}
use gomc.Session.Login
use gomc.Session.Handle.{dispatch, handle, handle_found, handle_kind, unless_err}

abbrev response : List ℕ → List ℕ → Joining.EncryptionResponse
response secret token = record { shared_secret = some secret; verify_token = some token }

-- The packet id and two byte arrays.
abbrev pub response_body : List ℕ → List ℕ → List ℕ
response_body secret token =
    Writer.var_int 1 ++ (Writer.byte_array secret ++ Writer.byte_array token)

decode-response :
    (secret token : List ℕ)
    → length secret < 2 ^ 31
    → length token < 2 ^ 31
    → Reads
        (decode Kind.encryption_response)
        (Writer.byte_array secret ++ Writer.byte_array token)
        (Packet.encryption_response (response secret token))
unfolding decode Joining.decode_encryption_response
decode-response secret token hs ht =
    map-Reads _
      (bind-Reads _ (byte_array-Reads secret hs) (map-Reads _ (byte_array-Reads token ht)))

module _ (d : Deps) (s : Session) where
  -- What `handle` does with the packet id and the rest.
  with_id : ℕ × Reader.Reader → Option SessionError × Session
  with_id (id, r) =
      unless_err r (reading λ t. handle_found d (new_serverbound serverbound t.state id) r) s

  with_packet : Packet × Reader.Reader → Option SessionError × Session
  with_packet (p, r) = unless_err r (dispatch d p) s

  -- In Login, where there is no key pair, an encryption response with any secret and any token that
  -- are shorter than 2^31 bytes ends in a run-time panic, whether or not the session has asked for
  -- one and whoever the client is.
  pub handle-unkeyed :
      (secret token : List ℕ)
      → d.has_key_pair ≡ false
      → s.state ≡ State.login
      → length secret < 2 ^ 31
      → length token < 2 ^ 31
      → handle d (response_body secret token) s ≡ (some SessionError.nil_dereference, s)
  unfolding handle with_id with_packet unless_err reading handle_found handle_kind dispatch
      Reader.new_reader Login.on_encryption_response Login.with_key_pair branch fail
  handle-unkeyed secret token unkeyed login hs ht =
      ap with_id ((var_int-Reads 1 (omega arith)).reads [] rest)
      ∙ (ap (λ st. found (new_serverbound serverbound st 1)) login
          ∙ (ap found (new_serverbound-serverbound State.login 1).1
              ∙ (ap with_packet decoded
                  ∙ ap
                      (λ b.
                        branch b (Login.decrypt_response d (response secret token))
                          (fail SessionError.nil_dereference) s)
                      unkeyed)))
    where
      rest : List ℕ
      rest = Writer.byte_array secret ++ Writer.byte_array token

      found : Option Kind → Option SessionError × Session
      found o = handle_found d o (at (Writer.var_int 1) rest) s

      decoded :
          decode Kind.encryption_response (at (Writer.var_int 1) rest)
          ≡ (Packet.encryption_response (response secret token), at (Writer.var_int 1 ++ rest) [])
      decoded =
          rw (append-nil rest) at ((decode-response secret token hs ht).reads (Writer.var_int 1) [])
