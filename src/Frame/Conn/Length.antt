-- ===== src/Frame/Conn/Length.antt =====
-- The length in front of a frame is read back.
use gomc.Prelude.{ℕ, zero, suc, ◌+◌, ◌*◌, ◌/◌, ◌%◌, ◌^◌, ◌<◌, ◌≤◌, ◌≡◌, ◌∙◌, arith}
use gomc.Prelude.{List, [], ◌∷◌, ◌++◌, bit_and, ℤ}
use gomc.Prelude.{ltb, ltb→lt, Bool-cases, inl, inr}
use gomc.Codec.Writer
use gomc.Codec.Writer.{len32}
use gomc.Codec.Reader.{add_group}
use gomc.Codec.VarInt.{groups, var_int-groups, top_bit, add_group_lem, split_groups, group_fits}
use gomc.Codec.VarInt.{groups_stable}
use gomc.Frame.Conn.{Conn, Result, ok, length_loop, read_length, max_packet_size}
use gomc.Frame.Cfb8.{Cfb8}
use gomc.Frame.Conn.Streams.{Pending, read_full-Pending}
use native.Mathlib.Nat.{add_assoc}
use mathlib.Core.Path.{subst}

-- The read gave `a`, and `more` is what comes next.
abbrev pub Gives : {A : Type 0} → List Cfb8 → Result (A × Conn) → A → List ℕ → List ℕ → ℤ → Type 0
Gives final r a more rest t =
    (c' : Conn) × (r ≡ ok (a, c')) × Pending final c' more rest × (c'.threshold ≡ t)

module _ {final : List Cfb8} (more rest : List ℕ) (t : ℤ) where
  last_byte :
      (rounds b result shift : ℕ) (c : Conn)
      → b < 128
      → result < 2 ^ shift
      → result + b * 2 ^ shift < 2 ^ 32
      → Pending final c (b ∷ more) rest
      → c.threshold ≡ t
      → Gives final (length_loop (suc rounds) result shift c) (result + b * 2 ^ shift) more rest t
  unfolding length_loop
  last_byte rounds b result shift c hb fits whole p ht =
      let (c', e, p', t') = read_full-Pending c (b ∷ []) more rest p in
      (c', rw e (rw (clear, added)), p', t' ∙ ht)
    where
      clear : bit_and b 0x80 ≡ 0
      clear = omega (arith, top_bit b (omega arith))

      small : b % 128 ≡ b
      small = omega arith

      added : add_group 32 result b shift ≡ result + b * 2 ^ shift
      added = rw small at (add_group_lem 32 result b shift fits (rw small whole))

  more_byte :
      (rounds g result shift : ℕ) {next : List ℕ} {v : ℕ} (c : Conn)
      → g < 128
      → result < 2 ^ shift
      → result + g * 2 ^ shift < 2 ^ 32
      → Pending final c ((g + 128) ∷ next) rest
      → c.threshold ≡ t
      → ((c' : Conn)
          → Pending final c' next rest
          → c'.threshold ≡ t
          → Gives final (length_loop rounds (result + g * 2 ^ shift) (shift + 7) c') v more rest t)
      → Gives final (length_loop (suc rounds) result shift c) v more rest t
  unfolding length_loop
  more_byte rounds g result shift {next} {v} c hg fits whole p ht k =
      let (c', e, p', t') = read_full-Pending c ((g + 128) ∷ []) next rest p in
      let (c'', e', p'', t'') = k c' p' (t' ∙ ht) in (c'', rw e (rw (high, added) e'), p'', t'')
    where
      high : bit_and (g + 128) 0x80 ≡ 128
      high = omega (arith, top_bit (g + 128) (omega arith))

      small : (g + 128) % 128 ≡ g
      small = omega arith

      added : add_group 32 result (g + 128) shift ≡ result + g * 2 ^ shift
      added = rw small at (add_group_lem 32 result (g + 128) shift fits (rw small whole))

  length_loop-Pending :
      (k rounds v result shift : ℕ) (c : Conn)
      → v < 128 ^ suc k
      → k < rounds
      → result < 2 ^ shift
      → result + v * 2 ^ shift < 2 ^ 32
      → Pending final c (groups k v ++ more) rest
      → c.threshold ≡ t
      → Gives final (length_loop rounds result shift c) (result + v * 2 ^ shift) more rest t
  unfolding groups
  length_loop-Pending k zero v result shift c hv hk fits whole p ht = absurd (omega arith)
  length_loop-Pending zero (suc rounds) v result shift c hv hk fits whole p ht =
      last_byte rounds v result shift c (omega arith) fits whole p ht
  length_loop-Pending (suc k) (suc rounds) v result shift c hv hk fits whole p ht =
      elim (Bool-cases (ltb v 128)) [
        | inl small ↦
            last_byte rounds v result shift c (ltb→lt v 128 small) fits whole (rw small at p) ht
        | inr large ↦
            rw (split_groups v shift, ← add_assoc result _ _)
              (more_byte rounds (v % 128) result shift c (omega arith) fits
                (omega (arith, split_groups v shift)) (rw large at p) ht
                (λ c' p' ht'.
                  length_loop-Pending k rounds (v / 128) (result + v % 128 * 2 ^ shift) (shift + 7)
                    c' (omega arith) (omega arith) (group_fits v result shift fits)
                    (omega (arith, split_groups v shift)) p' ht'))
      ]

  pub read_length-Pending :
      (n : ℕ) (c : Conn)
      → n ≤ max_packet_size
      → Pending final c (Writer.var_int n ++ more) rest
      → c.threshold ≡ t
      → Gives final (read_length c) n more rest t
  unfolding read_length
  read_length-Pending n c h p ht =
      subst (λ k. Gives final (read_length c) k more rest t) (omega arith)
        (length_loop-Pending 2 3 n 0 0 c (omega arith) (omega arith) (omega arith) (omega arith)
          (rw short at p) ht)
    where
      short : Writer.var_int n ≡ groups 2 n
      short =
          var_int-groups n (omega arith)
          ∙ groups_stable 3 n (omega arith)
          ∙ groups_stable 2 n (omega arith)
