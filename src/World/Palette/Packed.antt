-- ===== src/World/Palette/Packed.antt =====
-- The packed longs of a container, as a client reads them: each long holds the entries of `per`
-- cells, the lowest bits first, and the next long is read when those of the last are used up.
use gomc.Prelude.{ℕ, zero, suc, ◌+◌, ◌-◌, ◌*◌, ◌/◌, ◌%◌, ◌^◌, ◌<◌, ◌≤◌, ◌≡◌, refl, sym, ap, arith}
use gomc.Prelude.{List, [], ◌∷◌, ◌++◌, length, All, map, inl, inr, Bool-cases, true, false, ◌==◌}
use gomc.Prelude.{
  bit_or, bit_and, append_assoc, append-nil, All-append, length-append, ==_iff, lt→ltb,
}
use native.Mathlib.Nat.{mul-le-mul_right}
use mathlib.Core.Path.{subst}
use gomc.Codec.Reader
use gomc.Codec.Reader.{Read, ◌>>=◌, pure}
use gomc.Codec.Writer.{long}
use gomc.Codec.Reads.{Reads, pure-Reads, bind-Reads, map-Reads, of_eq-Reads}
use gomc.Codec.Numbers.{fixed-Reads}
use gomc.World.Palette.{pack_longs}
use gomc.World.Palette.Fill.{fill, split_fill, fill-lt, weight_fits, add_entry}

-- `rest` is how many entries of `cur` are left, `last` one less than a long has.
unfoldable pub read_cells : ℕ → ℕ → ℕ → ℕ → ℕ → Read (List ℕ)
read_cells bits last zero cur rest = pure []
read_cells bits last (suc n) cur (suc rest) = do
  vs ← read_cells bits last n (cur / 2 ^ bits) rest
  pure (cur % 2 ^ bits ∷ vs)
read_cells bits last (suc n) cur zero = do
  l ← Reader.long
  vs ← read_cells bits last n (l / 2 ^ bits) last
  pure (l % 2 ^ bits ∷ vs)

-- A round of the writer's loop, in terms of the number that it gives.
module _ (map2idx : ℕ → ℕ) (bits per v : ℕ) (vs : List ℕ) (cur n cur' : ℕ)
    (joined : bit_or cur (bit_and (map2idx v) (2 ^ bits - 1) * 2 ^ (n * bits) % 2 ^ 64)
      ≡ cur') where
  pack_longs_full :
      (n + 1 == per) ≡ true
      → pack_longs map2idx bits per (v ∷ vs) cur n ≡ long cur' ++ pack_longs map2idx bits per vs 0 0
  unfolding pack_longs
  pack_longs_full e = rw (pack_longs, e, joined)

  pack_longs_more :
      (n + 1 == per) ≡ false
      → pack_longs map2idx bits per (v ∷ vs) cur n ≡ pack_longs map2idx bits per vs cur' (n + 1)
  unfolding pack_longs
  pack_longs_more e = rw (pack_longs, e, joined)

-- `n` more than the length of a list.
abbrev pub extend : List ℕ → ℕ → ℕ
extend [] n = n
extend (e ∷ es) n = suc (extend es n)

extend-length : (es : List ℕ) (n : ℕ) → extend es n ≡ length es + n
extend-length [] n = omega arith
extend-length (e ∷ es) n = omega (arith, extend-length es n)

extend-append : (es : List ℕ) (e n : ℕ) → extend (es ++ (e ∷ [])) n ≡ extend es (suc n)
extend-append [] e n = refl
extend-append (d ∷ es) e n = ap (λ (k : ℕ). suc k) (extend-append es e n)

module _ (bits last : ℕ) where
  -- The entries that are left of a long.
  read_fill :
      (es : List ℕ) (extra rest : ℕ) {bs out : List ℕ}
      → All (λ e. e < 2 ^ bits) es
      → Reads (read_cells bits last rest 0 extra) bs out
      → Reads
          (read_cells bits last (extend es rest) (fill bits es) (extend es extra))
          bs
          (es ++ out)
  unfolding read_cells fill
  read_fill [] extra rest h r = r
  read_fill (e ∷ es) extra rest (he, h) r =
      let (remainder, quotient) = split_fill (2 ^ bits) e (fill bits es) he in
      rw (remainder, quotient) (map-Reads (λ vs. e ∷ vs) (read_fill es extra rest h r))

  -- A long, and its entries.
  read_long :
      (es : List ℕ) (extra rest c : ℕ) {bs out : List ℕ}
      → 0 < length es
      → extend es extra ≡ suc last
      → suc last * bits ≤ 64
      → All (λ e. e < 2 ^ bits) es
      → Reads (read_cells bits last rest 0 extra) bs out
      → Reads (read_cells bits last (extend es rest) c 0) (long (fill bits es) ++ bs) (es ++ out)
  unfolding read_cells
  read_long [] extra rest c some_ full room h r = absurd (omega arith)
  read_long (e ∷ es) extra rest c {bs} {out} some_ full room h r =
      bind-Reads _ (fixed-Reads 8 (fill bits (e ∷ es)) fits) (
        subst
          (λ (k : ℕ).
            Reads (read_cells bits last (extend (e ∷ es) rest) (fill bits (e ∷ es)) k) bs
              ((e ∷ es) ++ out))
          full (read_fill (e ∷ es) extra rest h r))
    where
      short : length (e ∷ es) ≤ suc last
      short = omega (arith, full, extend-length (e ∷ es) extra)

      fits : fill bits (e ∷ es) < 256 ^ 8
      fits = omega (
        arith,
        fill-lt bits (e ∷ es) h,
        weight_fits bits (length (e ∷ es)) (omega (arith, mul-le-mul_right bits short)),
      )

  module _ (map2idx : ℕ → ℕ) (room : suc last * bits ≤ 64) where
    pub pack_longs-Reads :
        (vs done : List ℕ) (c : ℕ)
        → length done ≤ last
        → All (λ e. e < 2 ^ bits) done
        → All (λ v. map2idx v < 2 ^ bits) vs
        → Reads
            (read_cells bits last (extend done (length vs)) c 0)
            (pack_longs map2idx bits (suc last) vs (fill bits done) (length done))
            (done ++ map map2idx vs)
    unfolding pack_longs fill read_cells
    pack_longs-Reads [] [] c few h hs = pure-Reads []
    pack_longs-Reads [] (e ∷ es) c few h hs = rw (lt→ltb 0 (length (e ∷ es)) (omega arith)) (
        of_eq-Reads (append-nil (long (fill bits (e ∷ es)))) (
          read_long (e ∷ es) (last - length es) 0 c (omega arith)
            (omega (arith, extend-length (e ∷ es) (last - length es))) room h (pure-Reads [])))
    pack_longs-Reads (v ∷ vs) done c few h (hv, hs) =
        let es = done ++ (map2idx v ∷ []) in
        let longer : length es ≡ length done + 1 = length-append done (map2idx v ∷ []) in
        let all = All-append (λ e. e < 2 ^ bits) done (map2idx v ∷ []) h (hv, tt) in
        let counted = extend-append done (map2idx v) (length vs) in
        let under : suc (length done) ≤ suc last = omega arith in
        let fit : suc (length done) * bits ≤ 64 = omega (arith, mul-le-mul_right bits under) in
        let entry = add_entry bits done (map2idx v) h hv fit in
        let joined = append_assoc done (map2idx v ∷ []) (map map2idx vs) in
        elim (Bool-cases (length done + 1 == suc last)) [
          | inl e ↦
              let full = (==_iff (length done + 1) (suc last)).0 e in
              rw
                (pack_longs_full map2idx bits (suc last) v vs (fill bits done) (length done) _ entry
                  e)
                (rw (sym joined, sym counted)
                  (read_long es 0 (length vs) c (omega arith) (omega (arith, extend-length es 0))
                    room all (pack_longs-Reads vs [] (fill bits []) (omega arith) tt hs)))
          | inr e ↦
              rw
                (pack_longs_more map2idx bits (suc last) v vs (fill bits done) (length done) _ entry
                  e)
                (rw (sym joined, sym counted, sym longer)
                  (pack_longs-Reads vs es c (ground arith) all hs))
        ]
