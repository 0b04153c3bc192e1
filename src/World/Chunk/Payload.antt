-- ===== src/World/Chunk/Payload.antt =====
-- A column's ChunkData body, as a client reads it up to the end of its sections.
use gomc.Prelude.{ℕ, zero, suc, ◌+◌, ◌/◌, ◌%◌, ◌^◌, ◌<◌, ◌≡◌, refl, ap, ◌∙◌, arith}
use gomc.Prelude.{List, [], ◌∷◌, ◌++◌, length, replicate, append_assoc, All, map}
use gomc.Codec.Writer
use gomc.Codec.Writer.{len32, bit_set, byte_array}
use mathlib.Core.List.{flat_map}
use gomc.Codec.Reader
use gomc.Codec.Reader.{Read, ◌>>=◌, pure, new_reader}
use gomc.Codec.Reads.{Reads, pure-Reads, bind-Reads, map-Reads, of_eq-Reads}
use gomc.Codec.VarInt.{var_int-Reads}
use gomc.World.Palette.{write_longs, pack_longs}
use gomc.World.Palette.Container.{read_longs, write_longs-Reads}
use gomc.World.Chunk.{write_section, section_cells, tabulate, count_non_air, build_payload}
use gomc.World.Chunk.{
  write_heightmap, column_cells, heightmap_bits, surface_height, section_count, full_bright_light,
}
use gomc.World.Chunk.Section.{read_section, IsColumn, write_section-Reads, All-replicate}

-- The kind and the heights.
unfoldable pub read_heightmap : Read (ℕ × List ℕ)
read_heightmap = do
  kind ← Reader.var_int
  longs ← Reader.var_int
  heights ← read_longs column_cells heightmap_bits
  pure (kind, heights)

unfoldable pub read_heightmaps : ℕ → Read (List (ℕ × List ℕ))
read_heightmaps zero = pure []
read_heightmaps (suc n) = do h ← read_heightmap; hs ← read_heightmaps n; pure (h ∷ hs)

unfoldable pub read_sections : ℕ → Read (List (ℕ × List ℕ))
read_sections zero = pure []
read_sections (suc n) = do s ← read_section; ss ← read_sections n; pure (s ∷ ss)

-- The sections of a column, the lowest one first.
unfoldable pub read_column : Read (List (ℕ × List ℕ))
read_column = do
  n ← Reader.var_int
  heightmaps ← read_heightmaps n
  size ← Reader.var_int
  read_sections section_count

-- What a client should read of a section.
abbrev pub section_of : List (ℕ × ℕ) → ℕ → ℕ × List ℕ
section_of overrides s =
    (count_non_air (section_cells s overrides) % 2 ^ 16, section_cells s overrides)

-- And of `n` sections from `s` on.
unfoldable pub sections_from : List (ℕ × ℕ) → ℕ → ℕ → List (ℕ × List ℕ)
sections_from overrides s zero = []
sections_from overrides s (suc n) = section_of overrides s ∷ sections_from overrides (s + 1) n

read_sections-Reads :
    (overrides : List (ℕ × ℕ)) (s n : ℕ)
    → IsColumn overrides
    → Reads
        (read_sections n)
        (tabulate (λ k. write_section k overrides) s n)
        (sections_from overrides s n)
unfolding read_sections tabulate sections_from
read_sections-Reads overrides s zero h = pure-Reads []
read_sections-Reads overrides s (suc n) h =
    bind-Reads _ (write_section-Reads s overrides h)
      (map-Reads _ (read_sections-Reads overrides (s + 1) n h))

abbrev packed_heights : List ℕ
packed_heights = write_longs (replicate column_cells surface_height) heightmap_bits (λ v. v)

heightmap_longs : length packed_heights / 8 ≡ 37
unfolding write_longs pack_longs
heightmap_longs = refl

write_heightmap-Reads :
    (kind : ℕ)
    → kind < 2 ^ 32
    → Reads read_heightmap (write_heightmap kind) (kind, replicate column_cells surface_height)
unfolding read_heightmap write_heightmap
write_heightmap-Reads kind h = of_eq-Reads (simp append_assoc) (
    bind-Reads _ (var_int-Reads kind h) (
      bind-Reads _ (var_int-Reads (length packed_heights / 8) (omega (arith, heightmap_longs))) (
        map-Reads (λ heights. (kind, heights))
          (write_longs-Reads (replicate column_cells surface_height) heightmap_bits (λ v. v)
            (omega arith) (omega arith)
            (All-replicate (λ v. v < 2 ^ 9) column_cells surface_height (omega arith))))))

write_heightmaps-Reads :
    (kinds : List ℕ)
    → All (λ k. k < 2 ^ 32) kinds
    → Reads
        (read_heightmaps (length kinds))
        (flat_map write_heightmap kinds)
        (map (λ k. (k, replicate column_cells surface_height)) kinds)
unfolding read_heightmaps flat_map
write_heightmaps-Reads [] h = pure-Reads []
write_heightmaps-Reads (k ∷ ks) (hk, h) =
    bind-Reads _ (write_heightmap-Reads k hk) (map-Reads _ (write_heightmaps-Reads ks h))

-- The body up to the end of the sections, and the rest of it.
abbrev column_start : List (ℕ × ℕ) → List ℕ
column_start overrides =
    let sections = tabulate (λ s. write_section s overrides) 0 section_count in
    Writer.var_int 3
    ++ (flat_map write_heightmap (1 ∷ 5 ∷ 4 ∷ []) ++ (Writer.var_int (len32 sections) ++ sections))

abbrev column_end : List ℕ
column_end =
    Writer.var_int 0
    ++ (bit_set (0b110 ∷ [])
        ++ (bit_set []
            ++ (bit_set (0b001 ∷ [])
                ++ (bit_set (0b111 ∷ [])
                    ++ (Writer.var_int 2
                        ++ (byte_array full_bright_light
                            ++ (byte_array full_bright_light ++ Writer.var_int 0)))))))

build_payload_eq :
    (overrides : List (ℕ × ℕ)) → build_payload overrides ≡ column_start overrides ++ column_end
unfolding build_payload
build_payload_eq overrides = simp append_assoc

column_start-Reads :
    (overrides : List (ℕ × ℕ))
    → IsColumn overrides
    → Reads read_column (column_start overrides) (sections_from overrides 0 section_count)
unfolding read_column
column_start-Reads overrides h = bind-Reads _ (var_int-Reads 3 (omega arith)) (
    bind-Reads _
      (write_heightmaps-Reads (1 ∷ 5 ∷ 4 ∷ []) (omega arith, (omega arith, (omega arith, tt))))
      (bind-Reads _
        (var_int-Reads (len32 (tabulate (λ s. write_section s overrides) 0 section_count))
          (omega arith))
        (read_sections-Reads overrides 0 section_count h)))

-- A client that reads the body of a column gets the sections of its overrides.
pub read_column-build_payload :
    (overrides : List (ℕ × ℕ))
    → IsColumn overrides
    → (read_column (new_reader (build_payload overrides))).0
      ≡ sections_from overrides 0 section_count
unfolding new_reader
read_column-build_payload overrides h =
    ap (λ bs. (read_column (new_reader bs)).0) (build_payload_eq overrides)
    ∙ ap (λ p. p.0) ((column_start-Reads overrides h).reads [] column_end)
