-- ===== src/Session/Chunks.antt =====
-- internal/net/session/session.go: the streaming of chunk columns. The loops over x and z run on
-- fuel, `none` if it runs out; the map of columns that are wanted is the list of their keys.
use gomc.Prelude.{ℕ, zero, suc, ◌+◌, ◌-◌, ◌*◌, ◌%◌, ◌^◌, leb, ◌||◌, if◌then◌else◌}
use gomc.Prelude.{List, [], ◌∷◌, map, Bool, false, Option, none, some}
use mathlib.Core.List.{flat_map}
use gomc.Packet.Clientbound.{Clientbound}
use gomc.World.Chunk.{superflat_payload}
use gomc.World.Blocks.{same_chunk, chunk_payload}
use gomc.Session.State.{Deps, SessionError, Act, ◌>>◌, done, modify, reading, branch}
use gomc.Session.State.{given, send}

abbrev pub view_distance : ℕ
view_distance = 8

-- The sum and the difference of int32s, and their order.
abbrev pub add32 : ℕ → ℕ → ℕ
add32 a b = (a + b) % 2 ^ 32

abbrev pub sub32 : ℕ → ℕ → ℕ
sub32 a b = (a + 2 ^ 32 - b) % 2 ^ 32

abbrev pub leb32 : ℕ → ℕ → Bool
leb32 a b = leb ((a + 2 ^ 31) % 2 ^ 32) ((b + 2 ^ 31) % 2 ^ 32)

-- The values of `for x := lo; x <= hi; x++`.
unfoldable pub range32 : ℕ → ℕ → ℕ → Option (List ℕ)
range32 zero lo hi = none
range32 (suc fuel) lo hi =
    let rest = range32 fuel (add32 lo 1) hi in
    if leb32 lo hi then elim rest [ none ↦ none | some xs ↦ some (lo ∷ xs) ] else some []

-- The values of the loop from `c - viewDistance` to `c + viewDistance`, with fuel for each of them
-- and for the last test.
unfoldable pub around : ℕ → Option (List ℕ)
around c = range32 (2 * view_distance + 2) (sub32 c view_distance) (add32 c view_distance)

-- The keys that the two loops visit.
unfoldable pub grid : List ℕ → List ℕ → List (ℕ × ℕ)
grid xs zs = flat_map (λ x. map (λ z. (x, z)) zs) xs

-- The keys of the whole view, `none` if its loops do not end; the inner loop runs only within the
-- outer one.
unfoldable pub view : ℕ → ℕ → Option (List (ℕ × ℕ))
view cx cz = elim (around cx) [
  | none ↦ none
  | some [] ↦ some []
  | some (x ∷ xs) ↦ elim (around cz) [ none ↦ none | some zs ↦ some (grid (x ∷ xs) zs) ]
]

unfoldable pub has : ℕ × ℕ → List (ℕ × ℕ) → Bool
has key [] = false
has key (k ∷ ks) = same_chunk key k || has key ks

unfoldable pub without : ℕ × ℕ → List (ℕ × ℕ) → List (ℕ × ℕ)
without key [] = []
without key (k ∷ ks) = let rest = without key ks in if same_chunk key k then rest else k ∷ rest

unfoldable pub payload : Deps → ℕ → ℕ → List ℕ
payload d cx cz = elim d.world [ none ↦ superflat_payload | some w ↦ chunk_payload cx cz w ]

-- The body of the first loop, for a column that is not loaded.
unfoldable pub load_column : Deps → ℕ × ℕ → Act
load_column d (x, z) =
    send d (Clientbound.chunk_data (record { x = x; z = z; payload = payload d x z }))
    >> modify (λ s. record s { loaded = (x, z) ∷ s.loaded })

unfoldable pub load_columns : Deps → List (ℕ × ℕ) → Act
load_columns d [] = done
load_columns d (key ∷ keys) =
    reading (λ s. branch (has key s.loaded) done (load_column d key)) >> load_columns d keys

-- The body of the second loop, for a column that is not wanted.
unfoldable pub unload_column : Deps → ℕ × ℕ → Act
unload_column d (x, z) =
    send d (Clientbound.unload_chunk (record { x = x; z = z }))
    >> modify (λ s. record s { loaded = without (x, z) s.loaded })

-- Over the keys that were loaded when the loop began, in any order.
unfoldable pub unload_columns : Deps → List (ℕ × ℕ) → List (ℕ × ℕ) → Act
unload_columns d want [] = done
unload_columns d want (key ∷ keys) =
    branch (has key want) done (unload_column d key) >> unload_columns d want keys

-- The two loops over the columns that are wanted.
unfoldable pub stream : Deps → List (ℕ × ℕ) → Act
stream d want = load_columns d want >> reading (λ s. unload_columns d want s.loaded)

-- What a loop that does not end would send is left out.
unfoldable pub update_chunks : Deps → ℕ → ℕ → Act
update_chunks d cx cz =
    send d (Clientbound.set_center_chunk (record { chunk_x = cx; chunk_z = cz }))
    >> given SessionError.runaway (view cx cz) (stream d)
    >> modify (λ s. record s { chunk_x = cx; chunk_z = cz })
