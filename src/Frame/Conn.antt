-- ===== src/Frame/Conn.antt =====
-- internal/protocol/frame/frame.go. The connection is what the peer has still to deliver, what has
-- been written, and the transforms of either direction. compress/zlib and crypto/aes are parameters.
pub mod Streams
pub mod Length
pub mod RoundTrip
use gomc.Prelude.{
  ℕ, zero, suc, ◌+◌, ◌*◌, ◌^◌, ◌%◌, true, false, bit_and, bit_or, ℤ, pos, negsuc, Option, none,
  some,
}
use gomc.Prelude.{List, [], ◌∷◌, ◌++◌, length, get_or, take, drop, Bool, ltb, ◌==◌, ◌||◌}
use gomc.Prelude.{if◌then◌else◌}
use gomc.Codec.Reader
use gomc.Codec.Writer
use gomc.Codec.Writer.{len32}
use gomc.Frame.Cfb8.{Cfb8, new_cfb8, xor_key_stream}

-- `inflate` is what a zlib.Reader yields up to its end or its first error; `none` if the header is
-- refused. `deflate` is what a zlib.Writer has written once it is closed.
pub record Zlib : Type 0 where
  pub deflate : List ℕ → List ℕ
  pub inflate : List ℕ → Option (List ℕ)

-- `io_error` is any error of the connection, the end of input included; `zlib_error` of zlib.
pub data FrameError : Type 0 where
  packet_too_large bad_length size_mismatch io_error zlib_error bad_secret : FrameError
  codec : Reader.Error → FrameError

pub data Result (A : Type 0) : Type 0 where
  ok : A → Result A
  err : FrameError → Result A

-- `EnableEncryption` wraps `src` and `dst` once more, so either is a stack, the newest cipher first.
-- A threshold below 0 means no compression.
pub record Conn : Type 0 where
  pub unread : List ℕ
  pub written : List ℕ
  pub src : List Cfb8
  pub dst : List Cfb8
  pub threshold : ℤ

-- The next step of a reading method, unless there was an error.
infixl 5 ◌>>=◌
abbrev pub ◌>>=◌ : {A B : Type 0} → Result (A × Conn) → (A × Conn → Result B) → Result B
ok p >>= f = f p
err e >>= f = err e

-- A result that leaves the connection as it is.
abbrev pub attach : {A : Type 0} → Conn → Result A → Result (A × Conn)
attach c (ok a) = ok (a, c)
attach c (err e) = err e

abbrev pub max_packet_size : ℕ
max_packet_size = 2097151

abbrev pub max_len_bytes : ℕ
max_len_bytes = 3

abbrev pub max_uncompressed : ℕ
max_uncompressed = 16 * 2 ^ 20

-- `CompressionDisabled` is -1.
abbrev pub compression_disabled : ℤ
compression_disabled = negsuc 0

pub new_conn : List ℕ → Conn
new_conn unread = record {
  unread = unread;
  written = [];
  src = [];
  dst = [];
  threshold = compression_disabled;
}

pub set_compression_threshold : ℤ → Conn → Conn
set_compression_threshold t c = record c { threshold = t }

-- aes.NewCipher takes a key to its block function; the block size is 16.
unfoldable pub enable_encryption :
    (List ℕ → List ℕ → List ℕ) → List ℕ → Conn → Result (Unit {0} × Conn)
enable_encryption aes secret c =
    if length secret == 16
    then ok (
      tt,
      record c {
        src = new_cfb8 (aes secret) 16 secret true ∷ c.src;
        dst = new_cfb8 (aes secret) 16 secret false ∷ c.dst;
      },
    )
    else err bad_secret

-- Reading goes through the oldest cipher first, writing through the newest.
unfoldable pub read_through : List Cfb8 → List ℕ → List Cfb8 × List ℕ
read_through [] bs = ([], bs)
read_through (x ∷ xs) bs =
    let (xs', bs') = read_through xs bs in let (x', out) = xor_key_stream x bs' in (x' ∷ xs', out)

unfoldable pub write_through : List Cfb8 → List ℕ → List Cfb8 × List ℕ
write_through [] bs = ([], bs)
write_through (x ∷ xs) bs =
    let (x', bs') = xor_key_stream x bs in let (xs', out) = write_through xs bs' in (x' ∷ xs', out)

-- `io.ReadFull(c.src, buf)` into `n` bytes.
unfoldable pub read_full : ℕ → Conn → Result (List ℕ × Conn)
read_full n c =
    if ltb (length c.unread) n
    then err io_error
    else (let (src, bs) = read_through c.src (take n c.unread) in
        ok (bs, record c { unread = drop n c.unread; src = src }))

unfoldable pub length_loop : ℕ → ℕ → ℕ → Conn → Result (ℕ × Conn)
length_loop zero result shift c = err packet_too_large
length_loop (suc rounds) result shift c = read_full 1 c >>= λ (buf, c').
    let b = get_or buf 0 0 in
    let result' = bit_or result (bit_and b 0x7f * 2 ^ shift % 2 ^ 32) in
    let more = length_loop rounds result' (shift + 7) c' in
    if bit_and b 0x80 == 0 then ok (result', c') else more

unfoldable pub read_length : Conn → Result (ℕ × Conn)
read_length c = length_loop max_len_bytes 0 0 c

-- The zlib part of ReadPacket: exactly `data_len` bytes.
unfoldable pub read_inflated : ℕ → Option (List ℕ) → Result (List ℕ)
read_inflated data_len none = err zlib_error
read_inflated data_len (some out) =
    if ltb (length out) data_len
    then err io_error
    else if ltb data_len (length out)
    then err size_mismatch
    else ok out

module _ (zlib : Zlib) where
  -- Compressed framing: DataLength, 0 for a stored body, and the payload.
  unfoldable pub open_payload : ℕ → List ℕ → Result (List ℕ)
  open_payload data_len payload =
      if data_len == 0
      then ok payload
      else if Reader.is_negative data_len || ltb max_uncompressed data_len
      then err packet_too_large
      else read_inflated data_len (zlib.inflate payload)

  unfoldable pub open_read : List ℕ → ℕ × Reader.Reader → Result (List ℕ)
  open_read raw (data_len, rr) = elim rr.err [
    | some e ↦ err (codec e)
    | none ↦ open_payload data_len (drop rr.pos raw)
  ]

  unfoldable pub open_body : List ℕ → Result (List ℕ)
  open_body raw = open_read raw (Reader.var_int (Reader.new_reader raw))

  -- `if c.threshold < 0 { return raw, nil }`, or the compressed framing.
  unfoldable pub deframe : ℤ → List ℕ → Result (List ℕ)
  deframe (negsuc _) raw = ok raw
  deframe (pos _) raw = open_body raw

  unfoldable pub read_packet : Conn → Result (List ℕ × Conn)
  read_packet c = read_length c >>= λ (len, c').
      if ltb len 1 || ltb max_packet_size len
      then err bad_length
      else (read_full len c' >>= λ (raw, c''). attach c'' (deframe c''.threshold raw))

  -- The bytes that WritePacket hands to `writeAll`.
  unfoldable pub frame_body : ℤ → List ℕ → List ℕ
  frame_body (negsuc _) body = Writer.var_int (len32 body) ++ body
  frame_body (pos t) body =
      let deflated = zlib.deflate body in
      let inner =
        if ltb (length body) t
        then Writer.var_int 0 ++ body
        else Writer.var_int (len32 body) ++ deflated in
      Writer.var_int (len32 inner) ++ inner

  unfoldable pub write_packet : List ℕ → Conn → Conn
  write_packet body c =
      let (dst, out) = write_through c.dst (frame_body c.threshold body) in
      record c { dst = dst; written = c.written ++ out }
