-- ===== src/Packet/Dispatch.antt =====
-- The table of serverbound packets as a map that grows by one key for each registration.
use gomc.Prelude.{ℕ, ◌≡◌, refl, ◌&&◌, ◌==◌, if◌then◌else◌, arith, List, [], ◌∷◌, Option, none, some}
use gomc.Packet.Registry.{State, Kind, Registration, state_code, register_serverbound}
use gomc.Packet.Registry.{new_serverbound, register_all, registrations, empty_table, serverbound}

-- The factory of the registration of a key, if there is one.
abbrev pub registered : List Registration → State → ℕ → Option Kind
registered [] s id = none
registered (r ∷ rs) s id =
    let rest = registered rs s id in
    if state_code s == state_code r.state && (id == r.id) then some r.factory else rest

-- Starting up registers no key twice, so it does not panic; afterwards, for every state and every
-- id, the factory found is the one of the registration with that state and id, if there is one.
pub new_serverbound-serverbound :
    (s : State) (id : ℕ)
    → (register_all registrations (some empty_table) ≡ some serverbound)
      × (new_serverbound serverbound s id ≡ registered registrations s id)
unfolding new_serverbound serverbound register_all register_serverbound
new_serverbound-serverbound s id = (refl, found s id)
  where
    found : (s : State) (id : ℕ) → serverbound s id ≡ registered registrations s id
    found State.handshaking id = ground arith
    found State.status id = ground arith
    found State.login id = ground arith
    found State.configuration id = ground arith
    found State.play id = ground arith
