-- ===== src/Frame/Conn/Streams.antt =====
-- Stacks of ciphers that are in step: what goes through one comes back through the other, however
-- the bytes are cut into reads.
use gomc.Prelude.{ℕ, suc, false, ◌<◌, ◌≡◌, refl, sym, ap, ◌∙◌, arith, All, ltb}
use gomc.Prelude.{List, [], ◌∷◌, ◌++◌, length, take, drop, append_assoc, le→ltb, length-append}
use gomc.Prelude.{take-append, drop-append}
use gomc.Prelude.Bits.{bit_xor-lt}
use gomc.Frame.Cfb8.{Cfb8, xor_byte, xor_key_stream}
use gomc.Frame.Cfb8.Register.{shift_all, shift, xor_key_stream-register}
use gomc.Frame.Cfb8.Inverse.{InStep, GivesBytes, xor_key_stream_undo, encrypting}
use gomc.Frame.Conn.{Conn, ok, read_through, write_through, read_full}
use mathlib.Core.Path.{subst}

xor_key_stream-append :
    (bs cs : List ℕ) (x : Cfb8)
    → let (x', out) = xor_key_stream x bs in
      let (x'', more) = xor_key_stream x' cs in xor_key_stream x (bs ++ cs) ≡ (x'', out ++ more)
unfolding xor_key_stream
xor_key_stream-append [] cs x = refl
xor_key_stream-append (b ∷ bs) cs x =
    let (x', c) = xor_byte x b in
    ap (λ (p : Cfb8 × List ℕ). (p.0, c ∷ p.1)) (xor_key_stream-append bs cs x')

pub write_through-append :
    (es : List Cfb8) (bs cs : List ℕ)
    → let (es', out) = write_through es bs in
      let (es'', more) = write_through es' cs in write_through es (bs ++ cs) ≡ (es'', out ++ more)
unfolding write_through
write_through-append [] bs cs = refl
write_through-append (e ∷ es) bs cs =
    let (e', out) = xor_key_stream e bs in
    let (e'', more) = xor_key_stream e' cs in
    rw (xor_key_stream-append bs cs e)
      (ap (λ (p : List Cfb8 × List ℕ). (e'' ∷ p.0, p.1)) (write_through-append es out more))

shift_all_bytes :
    (block : List ℕ → List ℕ)
    → GivesBytes block
    → (bs w : List ℕ) → All (λ b. b < 256) bs
    → All (λ b. b < 256) (shift_all (encrypting block w) bs).1
      × (length (shift_all (encrypting block w) bs).1 ≡ length bs)
unfolding shift_all shift
shift_all_bytes block gives [] w h = (tt, refl)
shift_all_bytes block gives (b ∷ bs) w (hb, hbs) =
    let (bytes, len) = shift_all_bytes block gives bs _ hbs in
    ((bit_xor-lt 8 b _ hb (gives w), bytes), ap suc len)

-- An encrypting stream gives a byte for each byte.
stream_bytes :
    (block : List ℕ → List ℕ) (e d : Cfb8) (bs : List ℕ)
    → GivesBytes block
    → InStep block e d
    → All (λ b. b < 256) bs
    → All (λ b. b < 256) (xor_key_stream e bs).1 × (length (xor_key_stream e bs).1 ≡ length bs)
stream_bytes block e d bs gives p h =
    let (v, s, out) = xor_key_stream-register bs e p.encrypts in
    rw (out, p.sender) (shift_all_bytes block gives bs p.bytes h)

abbrev pub InSync : List Cfb8 → List Cfb8 → Type 0
InSync [] [] = Unit
InSync (e ∷ es) (d ∷ ds) =
    ((block : List ℕ → List ℕ) × GivesBytes block × InStep block e d) × InSync es ds
InSync _ _ = ⊥

pub through_undo :
    (es ds : List Cfb8) (bs : List ℕ)
    → InSync es ds
    → All (λ b. b < 256) bs
    → let (es', out) = write_through es bs in
      let (ds', back) = read_through ds out in
      (back ≡ bs) × InSync es' ds' × (length out ≡ length bs)
unfolding write_through read_through
through_undo [] [] bs s h = (refl, tt, refl)
through_undo [] (d ∷ ds) bs s h = absurd s
through_undo (e ∷ es) [] bs s h = absurd s
through_undo (e ∷ es) (d ∷ ds) bs ((block, gives, p), s) h =
    let (e', mid) = xor_key_stream e bs in
    let (bytes, len) = stream_bytes block e d bs gives p h in
    let (back, sync, len') = through_undo es ds mid s bytes in
    let (undone, q) = xor_key_stream_undo block e d bs gives p h in
    let out = (write_through es mid).1 in
    let kept : InStep block e' (xor_key_stream d (read_through ds out).1).0 =
      subst (λ t. InStep block e' (xor_key_stream d t).0) (sym back) q in
    (ap (λ t. (xor_key_stream d t).1) back ∙ undone, ((block, gives, kept), sync), len' ∙ len)

-- The peer has sent `plain` through ciphers in step with ours, which end as `final`, then `rest`.
pub record Pending (final : List Cfb8) (c : Conn) (plain rest : List ℕ) : Type 0 where
  pub sender : List Cfb8
  pub in_sync : InSync sender c.src
  pub bytes : All (λ b. b < 256) plain
  pub unread : c.unread ≡ (write_through sender plain).1 ++ rest
  pub ends : (write_through sender plain).0 ≡ final

All-split : (P : ℕ → Type 0) (xs ys : List ℕ) → All P (xs ++ ys) → All P xs × All P ys
All-split P [] ys h = (tt, h)
All-split P (x ∷ xs) ys (hx, h) = let (a, b) = All-split P xs ys h in ((hx, a), b)

-- A read of the bytes that come next gives them in the clear, and what follows is still pending.
pub read_full-Pending :
    {final : List Cfb8} (c : Conn) (bs more rest : List ℕ)
    → Pending final c (bs ++ more) rest
    → (c' : Conn) × (read_full (length bs) c ≡ ok (bs, c'))
      × Pending final c' more rest
      × (c'.threshold ≡ c.threshold)
unfolding read_full
read_full-Pending {final} c bs more rest p = (
  c',
  rw enough (ap (λ t. ok (t, c')) (ap (λ t. (read_through c.src t).1) taken ∙ undone.0)),
  record {
    sender = (write_through p.sender bs).0;
    in_sync =
        subst (λ t. InSync (write_through p.sender bs).0 (read_through c.src t).0) (sym taken)
          undone.1;
    bytes = parts.1;
    unread = dropped;
    ends =
        sym (ap (λ (t : List Cfb8 × List ℕ). t.0) (write_through-append p.sender bs more)) ∙ p.ends;
  },
  refl,
)
  where
    c' : Conn
    c' = record c {
      unread = drop (length bs) c.unread;
      src = (read_through c.src (take (length bs) c.unread)).0;
    }

    parts : All (λ b. b < 256) bs × All (λ b. b < 256) more
    parts = All-split (λ b. b < 256) bs more p.bytes

    out : List ℕ
    out = (write_through p.sender bs).1

    after : List ℕ
    after = (write_through (write_through p.sender bs).0 more).1 ++ rest

    undone :
        ((read_through c.src out).1 ≡ bs)
        × InSync (write_through p.sender bs).0 (read_through c.src out).0
        × (length out ≡ length bs)
    undone = through_undo p.sender c.src bs p.in_sync parts.0

    coming : c.unread ≡ out ++ after
    coming =
        p.unread
        ∙ ap (λ (t : List Cfb8 × List ℕ). t.1 ++ rest) (write_through-append p.sender bs more)
        ∙ append_assoc out _ rest

    enough : ltb (length c.unread) (length bs) ≡ false
    enough =
        le→ltb (length c.unread) (length bs)
          (omega (arith, ap length coming, length-append out after, undone.2))

    taken : take (length bs) c.unread ≡ out
    taken = rw (coming, ← undone.2) (take-append out after)

    dropped : drop (length bs) c.unread ≡ after
    dropped = rw (coming, ← undone.2) (drop-append out after)

pub write_through-nil : (es : List Cfb8) → write_through es [] ≡ (es, [])
unfolding write_through xor_key_stream
write_through-nil [] = refl
write_through-nil (e ∷ es) = ap (λ (p : List Cfb8 × List ℕ). (e ∷ p.0, p.1)) (write_through-nil es)

-- When all is read, the ciphers are in step with the peer's.
pub Pending-nil :
    {final : List Cfb8} {c : Conn} {rest : List ℕ}
    → Pending final c [] rest
    → InSync final c.src × (c.unread ≡ rest)
Pending-nil {final} {c} {rest} p = (
  subst (λ t. InSync t c.src)
      (sym (ap (λ (t : List Cfb8 × List ℕ). t.0) (write_through-nil p.sender)) ∙ p.ends) p.in_sync,
  p.unread ∙ ap (λ (t : List Cfb8 × List ℕ). t.1 ++ rest) (write_through-nil p.sender),
)
