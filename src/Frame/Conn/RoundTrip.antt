-- ===== src/Frame/Conn/RoundTrip.antt =====
-- What WritePacket writes, ReadPacket reads: plain, stored or compressed, encrypted or not.
use gomc.Prelude.{ℕ, ◌^◌, ◌<◌, ◌≤◌, ◌≡◌, refl, ap, ◌∙◌, arith}
use gomc.Prelude.{List, [], ◌++◌, length, All, All-append, ℤ, pos, append-nil}
use gomc.Prelude.{negsuc, ltb, Bool-cases, inl, inr, true, false, some}
use gomc.Prelude.{if◌then◌else◌, ◌==◌, drop-append, Bool, length-append, le→ltb}
use gomc.Codec.Reader
use gomc.Codec.Writer
use gomc.Codec.Writer.{len32}
use gomc.Codec.Compound.{not_negative}
use gomc.Codec.VarInt.{var_int-Reads, var_int_shape}
use gomc.Frame.Cfb8.{Cfb8}
use gomc.Frame.Conn.{Conn, Zlib, ok, max_packet_size}
use gomc.Frame.Conn.{
  max_uncompressed, open_read, open_payload, open_body, deframe, read_packet, frame_body,
  write_packet,
}
use gomc.Frame.Conn.{read_inflated, write_through}
use gomc.Frame.Conn.Streams.{Pending, read_full-Pending, InSync, Pending-nil}
use gomc.Frame.Conn.Length.{read_length-Pending}
use mathlib.Core.Path.{subst}
use native.Mathlib.Nat.{mod-eq_of_lt}

some_bytes : (n : ℕ) → 1 ≤ n → (n == 0) ≡ false
some_bytes n h = ground arith

-- A prefix that is a VarInt is not empty.
prefixed : (n : ℕ) (payload : List ℕ) → n < 2 ^ 32 → 1 ≤ length (Writer.var_int n ++ payload)
prefixed n payload h =
    let (bytes, lo, hi) = var_int_shape n h in
    omega (arith, length-append (Writer.var_int n) payload)

module _ (zlib : Zlib) where
  -- The length prefix is taken off, and the payload is what follows.
  open_body-prefix :
      (n : ℕ) (payload : List ℕ)
      → n < 2 ^ 32
      → open_body zlib (Writer.var_int n ++ payload) ≡ open_payload zlib n payload
  unfolding open_body open_read Reader.new_reader
  open_body-prefix n payload h =
      ap (open_read zlib (Writer.var_int n ++ payload)) ((var_int-Reads n h).reads [] payload)
      ∙ ap (open_payload zlib n) (drop-append (Writer.var_int n) payload)

  open_body-stored : (body : List ℕ) → open_body zlib (Writer.var_int 0 ++ body) ≡ ok body
  unfolding open_payload
  open_body-stored body = open_body-prefix 0 body (omega arith)

  module _ (lossless : (b : List ℕ) → zlib.inflate (zlib.deflate b) ≡ some b) where
    open_body-deflated :
        (body : List ℕ)
        → 1 ≤ length body
        → length body ≤ max_uncompressed
        → open_body zlib (Writer.var_int (len32 body) ++ zlib.deflate body) ≡ ok body
    unfolding read_inflated open_payload
    open_body-deflated body h1 h2 =
        let same : len32 body ≡ length body = mod-eq_of_lt (omega arith) in
        rw same (
          open_body-prefix (length body) (zlib.deflate body) (omega arith)
          ∙ rw (
            some_bytes (length body) h1,
            not_negative (length body) (omega arith),
            le→ltb max_uncompressed (length body) h2,
            lossless body,
            le→ltb (length body) (length body) (omega arith),
          ))

    -- The body that a frame carries is what was written.
    frame_opens :
        (t : ℤ) (body : List ℕ)
        → 1 ≤ length body
        → length body ≤ max_uncompressed
        → (framed : List ℕ) × (frame_body zlib t body ≡ Writer.var_int (len32 framed) ++ framed)
          × (deframe zlib t framed ≡ ok body)
          × (1 ≤ length framed)
    unfolding frame_body deframe
    frame_opens (negsuc k) body h1 h2 = (body, refl, refl, h1)
    frame_opens (pos k) body h1 h2 = elim (Bool-cases (ltb (length body) k)) [
      | inl stored ↦ (
        Writer.var_int 0 ++ body,
        rw stored,
        open_body-stored body,
        prefixed 0 body (omega arith),
      )
      | inr packed ↦ (
        Writer.var_int (len32 body) ++ zlib.deflate body,
        rw packed,
        open_body-deflated body h1 h2,
        prefixed (len32 body) (zlib.deflate body) (omega arith),
      )
    ]

    -- A frame that is pending is read, and the connection is ready for the next.
    read_framed :
        {final : List Cfb8} (c : Conn) (framed rest body : List ℕ)
        → 1 ≤ length framed
        → length framed ≤ max_packet_size
        → Pending final c (Writer.var_int (length framed) ++ framed) rest
        → deframe zlib c.threshold framed ≡ ok body
        → (c' : Conn) × (read_packet zlib c ≡ ok (body, c'))
          × InSync final c'.src
          × (c'.unread ≡ rest)
          × (c'.threshold ≡ c.threshold)
    unfolding read_packet
    read_framed c framed rest body h1 h2 p opens =
        let (c', e', p', t') =
          read_length-Pending framed rest c.threshold (length framed) c h2 p refl in
        let (c'', e'', p'', t'') = read_full-Pending c' framed [] rest (rw append-nil p') in
        let (sync, left) = Pending-nil p'' in
        (
          c'',
          rw (
            e',
            le→ltb (length framed) 1 h1,
            le→ltb max_packet_size (length framed) h2,
            e'',
            t'',
            t',
            opens,
          ),
          sync,
          left,
          t'' ∙ t',
        )

var_int_bytes : (n : ℕ) → n < 2 ^ 32 → All (λ b. b < 256) (Writer.var_int n)
var_int_bytes n h = (var_int_shape n h).0

module _ (zlib : Zlib) (lossless : (b : List ℕ) → zlib.inflate (zlib.deflate b) ≡ some b)
    (deflated : (b : List ℕ) → All (λ x. x < 256) b → All (λ x. x < 256) (zlib.deflate b)) where
  frame_body_bytes :
      (t : ℤ) (body : List ℕ)
      → All (λ b. b < 256) body
      → All (λ b. b < 256) (frame_body zlib t body)
  unfolding frame_body
  frame_body_bytes (negsuc k) body h =
      All-append _ _ body (var_int_bytes (len32 body) (omega arith)) h
  frame_body_bytes (pos k) body h =
      All-append _ _ inner (var_int_bytes (len32 inner) (omega arith)) inner_bytes
    where
      inner : List ℕ
      inner =
          if ltb (length body) k
          then Writer.var_int 0 ++ body
          else Writer.var_int (len32 body) ++ zlib.deflate body

      choose :
          (b : Bool) (xs ys : List ℕ)
          → All (λ x. x < 256) xs
          → All (λ x. x < 256) ys
          → All (λ x. x < 256) (if b then xs else ys)
      choose true xs ys hx hy = hx
      choose false xs ys hx hy = hy

      inner_bytes : All (λ b. b < 256) inner
      inner_bytes =
          choose (ltb (length body) k) _ _
            (All-append _ (Writer.var_int 0) body (var_int_bytes 0 (omega arith)) h)
            (All-append _ (Writer.var_int (len32 body)) _ (var_int_bytes (len32 body) (omega arith))
              (deflated body h))

  -- The peer's ReadPacket gives the body that WritePacket was given, whatever follows it, and both
  -- ends are in step for the next packet, when they are in step before: the ciphers agree, and the
  -- thresholds are the same. The body has 1 to 2^24 bytes, its frame is no longer than
  -- MaxPacketSize, and zlib is lossless and gives bytes.
  pub read_packet-write_packet :
      (c d : Conn) (body rest : List ℕ)
      → InSync c.dst d.src
      → d.threshold ≡ c.threshold
      → All (λ b. b < 256) body
      → 1 ≤ length body
      → length body ≤ max_uncompressed
      → length (frame_body zlib c.threshold body) ≤ max_packet_size
      → d.unread ≡ (write_packet zlib body (record c { written = [] })).written ++ rest
      → (d' : Conn) × (read_packet zlib d ≡ ok (body, d'))
        × InSync (write_packet zlib body c).dst d'.src
        × (d'.unread ≡ rest)
        × (d'.threshold ≡ d.threshold)
  unfolding write_packet
  read_packet-write_packet c d body rest sync ht bytes h1 h2 fits coming =
      let (framed, shape, opens, some_byte) = frame_opens zlib lossless c.threshold body h1 h2 in
      let sizes = length-append (Writer.var_int (len32 framed)) framed in
      let small : length framed ≤ max_packet_size = omega (arith, ap length shape) in
      let same : len32 framed ≡ length framed = mod-eq_of_lt (omega arith) in
      let plain : frame_body zlib c.threshold body ≡ Writer.var_int (length framed) ++ framed =
        shape ∙ ap (λ n. Writer.var_int n ++ framed) same in
      read_framed zlib lossless d framed rest body some_byte small
        (subst (λ t. Pending (write_through c.dst (frame_body zlib c.threshold body)).0 d t rest)
          plain
          (record {
            sender = c.dst;
            in_sync = sync;
            bytes = frame_body_bytes c.threshold body bytes;
            unread = coming;
            ends = refl;
          }))
        (ap (λ t. deframe zlib t framed) ht ∙ opens)
