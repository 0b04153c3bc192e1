-- ===== src/Auth/Joined.antt =====
-- What the session service is asked, and which of its answers give a profile.
use gomc.Prelude.{
  ℕ, ◌==◌, ◌&&◌, ◌≡◌, ◌↔◌, refl, sym, ap, ◌∙◌, List, [], ◌∷◌, ◌++◌, Option, none, some, inl, inr,
}
use gomc.Prelude.{Bool-cases, ==_iff, if◌then◌else◌, Bool, true, false}
use mathlib.Core.Option.{none-ne-some}
use gomc.Auth.Mojang.{Response, Web, Answer, username_key, server_id_key, question}
use gomc.Auth.Mojang.{decoded, judge, judge_answer, ask, has_joined}

abbrev pub same_key : List ℕ → List ℕ → Bool
same_key [] [] = true
same_key (a ∷ as_) (b ∷ bs) = a == b && same_key as_ bs
same_key _ _ = false

-- The value of a key of a query.
abbrev pub value_of : List ℕ → List (List ℕ × List ℕ) → Option (List ℕ)
value_of key [] = none
value_of key ((k, v) ∷ kvs) = let rest = value_of key kvs in if same_key key k then some v else rest

-- How the session service answers to what it finds under "username" and "serverId" in a query, if
-- at all.
abbrev pub Service : Type 0
Service = Option (List ℕ) → Option (List ℕ) → Option Response

-- A request for the session service's URL with an encoded query can be made, and is answered by the
-- service, which finds in it the values that were encoded.
abbrev pub Reaches : {P : Type 0} → Web P → List ℕ → Service → Type 0
Reaches web session_url service =
    (kvs : List (List ℕ × List ℕ))
    → (req : List ℕ) × (web.request (session_url ++ (b'?' ∷ web.encode kvs)) ≡ some req)
      × (web.answer req ≡ service (value_of username_key kvs) (value_of server_id_key kvs))

-- The service answers to this name and this server hash with status 200 and this profile.
abbrev pub Vouches : {P : Type 0} → Web P → Service → List ℕ → List ℕ → P → Type 0
Vouches web service username server_hash p =
    (r : Response) × (service (some username) (some server_hash) ≡ some r)
    × (r.status_code ≡ 200)
    × (web.decode r.body ≡ some p)

module _ {P : Type 0} where
  profile_of : Answer P → Option P
  profile_of (Answer.profile p) = some p
  profile_of (Answer.error e) = none

  no_profile : (a : Answer P) (p : P) → profile_of a ≡ none → a ≡ Answer.profile p → ⊥
  unfolding profile_of
  no_profile a p none_of e = none-ne-some _ (sym none_of ∙ ap profile_of e)

module _ {P : Type 0} (web : Web P) (session_url : List ℕ) where
  decoded-profile :
      (o : Option P) (p : P) → decoded web session_url o ≡ Answer.profile p → o ≡ some p
  unfolding decoded profile_of
  decoded-profile none p e = absurd (no_profile _ p refl e)
  decoded-profile (some q) p e = ap profile_of e

  judge-profile :
      (r : Response) (p : P)
      → judge web session_url r ≡ Answer.profile p
      → (r.status_code ≡ 200) × (web.decode r.body ≡ some p)
  unfolding judge profile_of
  judge-profile r p e = elim (Bool-cases (r.status_code == 200)) [
    | inl ok ↦ ((==_iff r.status_code 200).0 ok, decoded-profile _ p (rw (judge, ok) at e))
    | inr other ↦ elim (Bool-cases (r.status_code == 204)) [
      | inl empty ↦ absurd (no_profile _ p refl (rw (judge, other, empty) at e))
      | inr odd ↦ absurd (no_profile _ p refl (rw (judge, other, odd) at e))
    ]
  ]

  judge-found :
      (r : Response) (p : P)
      → r.status_code ≡ 200
      → web.decode r.body ≡ some p
      → judge web session_url r ≡ Answer.profile p
  unfolding judge decoded
  judge-found r p ok found =
      rw (judge, (==_iff r.status_code 200).1 ok) (ap (decoded web session_url) found)

abbrev response_or : Response → Option Response → Response
response_or r none = r
response_or r (some t) = t

module _ {P : Type 0} (web : Web P) (session_url : List ℕ) (service : Service)
    (reaches : Reaches web session_url service) where
  -- What the service is asked.
  has_joined-asks :
      (username server_hash : List ℕ)
      → has_joined web session_url username server_hash
        ≡ judge_answer web session_url (service (some username) (some server_hash))
  unfolding has_joined question ask
  has_joined-asks username server_hash =
      let kvs : List (List ℕ × List ℕ) =
        (username_key, username) ∷ (server_id_key, server_hash) ∷ [] in
      let (req, made, got) = reaches kvs in
      ap (ask web session_url) made ∙ ap (judge_answer web session_url) got

  answer-Vouches :
      (o : Option Response) (p : P)
      → (judge_answer web session_url o ≡ Answer.profile p)
        ↔ ((r : Response) × (o ≡ some r) × (r.status_code ≡ 200) × (web.decode r.body ≡ some p))
  unfolding judge_answer profile_of
  answer-Vouches none p =
      (λ e. absurd (no_profile _ p refl e), λ (r', same, ok, found). absurd (none-ne-some _ same))
  answer-Vouches (some r) p = (
    λ e. let (ok, found) = judge-profile web session_url r p e in (r, refl, ok, found),
    λ (r', same, ok, found).
        let one : r ≡ r' = ap (λ o. response_or r o) same in
        judge-found web session_url r p (ap (λ t. t.status_code) one ∙ ok)
          (ap (λ t. web.decode t.body) one ∙ found),
  )

  -- Where a query reaches the session service, HasJoined gives a profile exactly when the service
  -- answers to the user's name under "username" and the server hash under "serverId" with status
  -- 200 and a body that decodes to this profile.
  pub has_joined-Vouches :
      (username server_hash : List ℕ) (p : P)
      → (has_joined web session_url username server_hash ≡ Answer.profile p)
        ↔ Vouches web service username server_hash p
  has_joined-Vouches username server_hash p =
      let asked = has_joined-asks username server_hash in
      let answered = answer-Vouches (service (some username) (some server_hash)) p in
      (λ e. answered.0 (sym asked ∙ e), λ h. asked ∙ answered.1 h)
