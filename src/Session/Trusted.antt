-- ===== src/Session/Trusted.antt =====
-- Who a session is after the encryption exchange, and what comes before it.
use gomc.Prelude.{ℕ, ◌≡◌, refl, sym, ap, ◌∙◌, List, [], ◌∷◌, length, true, false, ◌==◌, ==_iff}
use gomc.Prelude.{Bool, ◌&&◌, Option, none, some}
use mathlib.Core.Path.{subst}
use gomc.Auth.{server_hash}
use gomc.Codec.Uuid.{parse_uuid}
use gomc.Packet.Registry.{State}
use gomc.Packet.Joining.{EncryptionResponse}
use gomc.Session.State.{
  Deps, Session, SessionError, Act, Profile, ◌>>◌, done, fail, modify, reading,
}
use gomc.Session.State.{branch, given}
use gomc.Session.Login
use gomc.Session.Login.{same_bytes, bytes_of}
use gomc.Session.Handle.{handle, unless_err, handle_found, handle_kind, dispatch}
use gomc.Codec.Reader
use gomc.Packet.Registry.{decode, new_serverbound, serverbound, register_all, register_serverbound}
use gomc.Session.Deaf.{Deaf, any_send-Keeps}
use gomc.Session.Keeps.{Keeps, keeps_rules}
use gomc.Session.Sending.{then_done, none≢some}
use gomc.Frame.Conn

-- In Configuration, under a name and a UUID.
abbrev pub IsCalled : List ℕ → List ℕ → Session → Type 0
IsCalled name uuid s = (s.state ≡ State.configuration) × ((s.username ≡ name) × (s.uuid ≡ uuid))

IsCalled-Deaf : (name uuid : List ℕ) → Deaf (IsCalled name uuid)
IsCalled-Deaf name uuid = record {
  sent = λ s c p h. h;
  loaded = λ s ks h. h;
  centred = λ s x z h. h;
}

enter_configuration-IsCalled :
    (d : Deps) (name uuid : List ℕ) → Keeps (IsCalled name uuid) (Login.enter_configuration d)
unfolding Login.enter_configuration
enter_configuration-IsCalled d name uuid =
    search (keeps_rules, any_send-Keeps (IsCalled name uuid) (IsCalled-Deaf name uuid) d) depth 12

-- Whatever the options are, online mode among them, a session in Login that is sent the body 3 goes
-- on to Configuration under the name and the UUID that it has, whether or not an encryption response
-- has come.
pub handle-IsCalled :
    (d : Deps) (s : Session)
    → IsCalled s.username s.uuid (handle d (3 ∷ []) (record s { state = State.login })).1
unfolding handle reading modify unless_err handle_found handle_kind dispatch ◌>>◌
    Login.on_login_acknowledged Reader.var_int Reader.var_loop decode Reader.◌>>=◌ Reader.pure
    Reader.unless_nil Reader.take Reader.if_failed Reader.new_reader Reader.when◌then◌else◌
    new_serverbound serverbound register_all register_serverbound
handle-IsCalled d s =
    (enter_configuration-IsCalled d s.username s.uuid).keeps
      (record s { state = State.configuration }) (refl, (refl, refl))

and_true : (a b : Bool) → (a && b) ≡ true → (a ≡ true) × (b ≡ true)
and_true true b h = (refl, h)
and_true false b h = cc

same_bytes_sound : (as_ bs : List ℕ) → same_bytes as_ bs ≡ true → as_ ≡ bs
unfolding same_bytes
same_bytes_sound [] [] h = refl
same_bytes_sound [] (b ∷ bs) h = cc
same_bytes_sound (a ∷ as_) [] h = cc
same_bytes_sound (a ∷ as_) (b ∷ bs) h =
    let both = and_true (a == b) (same_bytes as_ bs) h in
    ap (λ c. c ∷ as_) ((==_iff a b).0 both.0) ∙ ap (λ cs. b ∷ cs) (same_bytes_sound as_ bs both.1)

given_done :
    {A : Type 0} (e : SessionError) (o : Option A) (f : A → Act) (s : Session)
    → (given e o f s).0 ≡ none
    → (a : A) × ((o ≡ some a) × (given e o f s ≡ f a s))
unfolding given
given_done e none f s h = absurd (none≢some e (sym h))
given_done e (some a) f s h = (a, (refl, refl))

check_done :
    (b : Bool) (e : SessionError) (s : Session)
    → (branch b done (fail e) s).0 ≡ none
    → (b ≡ true) × ((branch b done (fail e) s).1 ≡ s)
unfolding branch done fail
check_done true e s h = (refl, refl)
check_done false e s h = absurd (none≢some e (sym h))

check_token_done :
    (token : List ℕ) (s : Session)
    → (Login.check_token token s).0 ≡ none
    → (token ≡ s.verify_token) × ((Login.check_token token s).1 ≡ s)
unfolding Login.check_token reading
check_token_done token s h =
    let checked = check_done (same_bytes token s.verify_token) SessionError.token_mismatch s h in
    (same_bytes_sound token s.verify_token checked.0, checked.1)

encrypted_name :
    (r : Conn.Result (Unit {0} × Conn.Conn)) (s : Session)
    → (Login.encrypted r s).1.username ≡ s.username
unfolding Login.encrypted fail modify
encrypted_name (Conn.err e) s = refl
encrypted_name (Conn.ok (u, c)) s = refl

-- The profile that a session has adopted.
abbrev pub HasProfile : Profile → List ℕ → Session → Type 0
HasProfile profile uuid t =
    (t.username ≡ profile.name) × ((t.uuid ≡ uuid) × (t.properties ≡ profile.properties))

HasProfile-Deaf : (profile : Profile) (uuid : List ℕ) → Deaf (HasProfile profile uuid)
HasProfile-Deaf profile uuid = record {
  sent = λ s c p h. h;
  loaded = λ s ks h. h;
  centred = λ s x z h. h;
}

finish_login-HasProfile :
    (d : Deps) (profile : Profile) (uuid : List ℕ)
    → Keeps (HasProfile profile uuid) (Login.finish_login d)
unfolding Login.finish_login Login.set_compression Login.send_success
finish_login-HasProfile d profile uuid =
    search (keeps_rules, any_send-Keeps (HasProfile profile uuid) (HasProfile-Deaf profile uuid) d)
      depth 12

-- Who the session is, by the authentication of a name and a secret.
abbrev pub IsVouched : Deps → List ℕ → List ℕ → Session → Type 0
IsVouched d name secret t =
    (profile : Profile) × ((d.authenticate name (server_hash d.sha1 [] secret d.public_der)
        ≡ some profile)
      × ((uuid : List ℕ) × ((parse_uuid profile.id ≡ some uuid) × HasProfile profile uuid t)))

verify_join-IsVouched :
    (d : Deps) (secret : List ℕ) (s : Session)
    → (Login.verify_join d secret s).0 ≡ none
    → IsVouched d s.username secret (Login.verify_join d secret s).1
unfolding Login.verify_join Login.adopt reading modify
verify_join-IsVouched d secret s h =
    let (profile, (found, same)) = given_done _ _ _ s h in
    let (uuid, (parsed, same')) = given_done _ _ _ s (ap (λ r. r.0) (sym same) ∙ h) in
    let ended = then_done _ _ s (ap (λ r. r.0) (sym (same ∙ same')) ∙ h) in
    (
      profile,
      (
        found,
        (
          uuid,
          (
            parsed,
            subst (λ r. HasProfile profile uuid r.1) (sym (same ∙ same' ∙ ended.1))
                ((finish_login-HasProfile d profile uuid).keeps _ (refl, (refl, refl))),
          ),
        ),
      ),
    )

-- The two checks of a response, which leave the session as it is.
abbrev checks : Deps → EncryptionResponse → List ℕ → Act
checks d p secret =
    branch (length secret == 16) done (fail SessionError.secret_length)
    >> given SessionError.decrypt_token (d.decrypt (bytes_of p.verify_token)) Login.check_token

abbrev IsChecked : Deps → EncryptionResponse → List ℕ → Session → Type 0
IsChecked d p secret s =
    (length secret ≡ 16) × (d.decrypt (bytes_of p.verify_token) ≡ some s.verify_token)

checks_done :
    (d : Deps) (p : EncryptionResponse) (secret : List ℕ) (s : Session)
    → (checks d p secret s).0 ≡ none
    → IsChecked d p secret s × ((checks d p secret s).1 ≡ s)
checks_done d p secret s h =
    let ended = then_done _ _ s h in
    let (long, same) = check_done (length secret == 16) SessionError.secret_length s ended.0 in
    let rest = ended.1 ∙ ap (given SessionError.decrypt_token _ Login.check_token) same in
    let (token, (found, same')) = given_done _ _ _ s (ap (λ r. r.0) (sym rest) ∙ h) in
    let (equal, same'') = check_token_done token s (ap (λ r. r.0) (sym (rest ∙ same')) ∙ h) in
    (((==_iff _ _).0 long, found ∙ ap some equal), ap (λ r. r.1) (rest ∙ same') ∙ same'')

ciphered_done :
    (d : Deps) (p : EncryptionResponse) (secret : List ℕ) (s : Session)
    → ((checks d p secret >> Login.encrypt d secret) s).0 ≡ none
    → IsChecked d p secret s
      × (((checks d p secret >> Login.encrypt d secret) s).1.username ≡ s.username)
unfolding Login.encrypt reading
ciphered_done d p secret s h =
    let ended = then_done (checks d p secret) _ s h in
    let (checked, same) = checks_done d p secret s ended.0 in
    (checked, ap (λ r. r.1.username) ended.1 ∙ encrypted_name _ _ ∙ ap (λ t. t.username) same)

-- All that comes after the secret.
abbrev with_secret : Deps → EncryptionResponse → List ℕ → Act
with_secret d p secret = checks d p secret >> Login.encrypt d secret >> Login.verify_join d secret

joined_done :
    (d : Deps) (p : EncryptionResponse) (secret : List ℕ) (s : Session)
    → (with_secret d p secret s).0 ≡ none
    → IsChecked d p secret s × IsVouched d s.username secret (with_secret d p secret s).1
joined_done d p secret s h =
    let ended = then_done (checks d p secret >> Login.encrypt d secret) _ s h in
    let (checked, name) = ciphered_done d p secret s ended.0 in
    let t : Session = ((checks d p secret >> Login.encrypt d secret) s).1 in
    let vouched = verify_join-IsVouched d secret t (ap (λ r. r.0) (sym ended.1) ∙ h) in
    (
      checked,
      subst (λ r. IsVouched d s.username secret r.1) (sym ended.1)
          (subst (λ n. IsVouched d n secret (Login.verify_join d secret t).1) name vouched),
    )

-- What a response that is answered without an error was, and what it makes of the session.
abbrev Admitted : Deps → EncryptionResponse → Session → Session → Type 0
Admitted d p s t =
    (d.decrypt (bytes_of p.verify_token) ≡ some s.verify_token)
    × ((secret : List ℕ) × ((d.decrypt (bytes_of p.shared_secret) ≡ some secret)
          × ((length secret ≡ 16) × IsVouched d s.username secret t)))

decrypt_response-Admitted :
    (d : Deps) (p : EncryptionResponse) (s : Session)
    → (Login.decrypt_response d p s).0 ≡ none
    → Admitted d p s (Login.decrypt_response d p s).1
unfolding Login.decrypt_response
decrypt_response-Admitted d p s h =
    let (secret, (found, same)) = given_done _ _ _ s h in
    let (checked, vouched) = joined_done d p secret s (ap (λ r. r.0) (sym same) ∙ h) in
    (
      checked.1,
      (
        secret,
        (found, (checked.0, subst (λ r. IsVouched d s.username secret r.1) (sym same) vouched)),
      ),
    )

keyed_done :
    (d : Deps) (m : Act) (s : Session)
    → (Login.with_key_pair d m s).0 ≡ none
    → Login.with_key_pair d m s ≡ m s
unfolding Login.with_key_pair branch fail
keyed_done d m s h = go d.has_key_pair h
  where
    go :
        (b : Bool)
        → (branch b m (fail SessionError.nil_dereference) s).0 ≡ none
        → branch b m (fail SessionError.nil_dereference) s ≡ m s
    go true e = refl
    go false e = absurd (none≢some _ (sym e))

-- An encryption response is answered without an error only if it holds a secret of 16 bytes and the
-- token of the session, both under the server's key, and the session service vouches for the name
-- that the client gave together with that secret. The session then has the name, the UUID and the
-- properties of the profile that the service gave.
pub on_encryption_response-IsVouched :
    (d : Deps) (p : EncryptionResponse) (s : Session)
    → (Login.on_encryption_response d p s).0 ≡ none
    → (d.decrypt (bytes_of p.verify_token) ≡ some s.verify_token)
      × ((secret : List ℕ) × ((d.decrypt (bytes_of p.shared_secret) ≡ some secret)
            × ((length secret ≡ 16)
                × IsVouched d s.username secret (Login.on_encryption_response d p s).1)))
unfolding Login.on_encryption_response
on_encryption_response-IsVouched d p s h =
    let same = keyed_done d (Login.decrypt_response d p) s h in
    subst (λ r. Admitted d p s r.1) (sym same)
      (decrypt_response-Admitted d p s (ap (λ r. r.0) (sym same) ∙ h))
