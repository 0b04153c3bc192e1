-- ===== src/Auth/Examples.antt =====
-- The theorems of package auth at concrete inputs.
use gomc.Prelude.{List, ◌++◌, ℕ, [], ◌∷◌, replicate, refl, arith}
use gomc.Auth.{offline_uuid, offline_prefix}
use gomc.Prelude.{◌≡◌, ◌↔◌, some}
use gomc.Auth.Mojang.{Answer, Web, username_key, server_id_key, has_joined}
use gomc.Auth.Joined.{value_of, Service, Reaches, Vouches, has_joined-Vouches}
use gomc.Prelude.{length, take, drop, take-append, drop-append, zero, suc, ap}
use gomc.Auth.Digest.{IsStamped, offline_uuid-IsStamped}

abbrev all_ones : List ℕ → List ℕ
all_ones bytes = replicate 16 255

offline_uuid-IsStamped_example :
    IsStamped (all_ones (offline_prefix ++ (b'S' ∷ []))) (offline_uuid all_ones (b'S' ∷ [])) 3
offline_uuid-IsStamped_example =
    offline_uuid-IsStamped all_ones (b'S' ∷ []) 3 refl (λ e. absurd (omega arith))
      (λ e. absurd (omega arith))

-- A query as the number of its pairs and each text after its length, and how that is read.
abbrev put_text : List ℕ → List ℕ
put_text t = length t ∷ t

abbrev put_pairs : List (List ℕ × List ℕ) → List ℕ
put_pairs [] = []
put_pairs ((k, v) ∷ kvs) = put_text k ++ (put_text v ++ put_pairs kvs)

abbrev text : List ℕ → List ℕ × List ℕ
text [] = ([], [])
text (n ∷ rest) = (take n rest, drop n rest)

unfoldable pairs : ℕ → List ℕ → List (List ℕ × List ℕ)
pairs zero bytes = []
pairs (suc n) bytes = let (k, r) = text bytes in let (v, r') = text r in (k, v) ∷ pairs n r'

text-put_text : (t rest : List ℕ) → text (put_text t ++ rest) ≡ (t, rest)
text-put_text t rest = rw (take-append, drop-append) refl

pairs-put_pairs : (kvs : List (List ℕ × List ℕ)) → pairs (length kvs) (put_pairs kvs) ≡ kvs
unfolding pairs
pairs-put_pairs [] = refl
pairs-put_pairs ((k, v) ∷ kvs) =
    rw (take-append, drop-append, take-append, drop-append, pairs-put_pairs kvs) refl

-- The pairs after the question mark.
abbrev query : List ℕ → List (List ℕ × List ℕ)
query [] = []
query (q ∷ []) = []
query (q ∷ n ∷ bytes) = pairs n bytes

-- A service that vouches for every name that comes with a server hash, with the name as the
-- profile.
abbrev service : Service
service (some name) (some hash) = some (record { status_code = 200; body = name })
service _ _ = some (record { status_code = 204; body = [] })

abbrev web : Web (List ℕ)
web = record {
  encode = λ kvs. length kvs ∷ put_pairs kvs;
  request = some;
  answer = λ url. service (value_of username_key (query url)) (value_of server_id_key (query url));
  decode = some;
}

web-Reaches : Reaches web [] service
web-Reaches kvs = (
  b'?' ∷ length kvs ∷ put_pairs kvs,
  refl,
  ap (λ ps. service (value_of username_key ps) (value_of server_id_key ps)) (pairs-put_pairs kvs),
)

has_joined-Vouches_example :
    (has_joined web [] (b'S' ∷ []) (b'-' ∷ []) ≡ Answer.profile (b'S' ∷ []))
    ↔ Vouches web service (b'S' ∷ []) (b'-' ∷ []) (b'S' ∷ [])
has_joined-Vouches_example =
    has_joined-Vouches web [] service web-Reaches (b'S' ∷ []) (b'-' ∷ []) (b'S' ∷ [])
