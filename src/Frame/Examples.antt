-- ===== src/Frame/Examples.antt =====
-- Concrete runs of package frame, after frame_test.go, and the theorems at concrete inputs.
use gomc.Prelude.{ℕ, ◌≡◌, refl, arith, List, [], ◌∷◌, ◌++◌, some, pos, true, false}
use gomc.Prelude.{replicate}
use gomc.Frame.Cfb8.{Cfb8, new_cfb8, xor_key_stream}
use gomc.Frame.Cfb8.Register.{
  IsValid, register, shift_all, xor_key_stream-register, new_cfb8-IsValid,
}
use gomc.Frame.Cfb8.Inverse.{InStep, GivesBytes, xor_key_stream_undo, new_cfb8-InStep}
use gomc.Frame.Conn.{Conn, Zlib, ok, read_packet, write_packet, frame_body}
use gomc.Frame.Conn.Streams.{InSync}
use gomc.Frame.Conn.RoundTrip.{read_packet-write_packet}
use gomc.Codec.Writer

-- A stand-in for the AES block function, and one for zlib.
abbrev toy_block : List ℕ → List ℕ
toy_block w = 0x5a ∷ w

abbrev secret : List ℕ
secret = replicate 16 7

abbrev sender : Cfb8
sender = new_cfb8 toy_block 16 secret false

abbrev receiver : Cfb8
receiver = new_cfb8 toy_block 16 secret true

gives : GivesBytes toy_block
gives w = omega arith

xor_key_stream-register_example :
    IsValid (xor_key_stream sender (1 ∷ 2 ∷ [])).0
    × (register (xor_key_stream sender (1 ∷ 2 ∷ [])).0
        ≡ (shift_all (register sender) (1 ∷ 2 ∷ [])).0)
    × ((xor_key_stream sender (1 ∷ 2 ∷ [])).1 ≡ (shift_all (register sender) (1 ∷ 2 ∷ [])).1)
xor_key_stream-register_example =
    xor_key_stream-register (1 ∷ 2 ∷ []) sender
      (new_cfb8-IsValid toy_block 16 secret false (omega arith) refl).0

xor_key_stream_undo_example :
    let (e', cs) = xor_key_stream sender (1 ∷ 2 ∷ []) in
    let (d', out) = xor_key_stream receiver cs in (out ≡ 1 ∷ 2 ∷ []) × InStep toy_block e' d'
xor_key_stream_undo_example =
    xor_key_stream_undo toy_block sender receiver (1 ∷ 2 ∷ []) gives
      (new_cfb8-InStep toy_block 16 secret (omega arith) refl) (omega arith)

abbrev plain_zlib : Zlib
plain_zlib = record { deflate = λ b. b; inflate = some }

-- A writer with encryption and a threshold of 2, and a reader with the bytes it wrote and one more.
abbrev ours : Conn
ours = record { unread = []; written = []; src = []; dst = sender ∷ []; threshold = pos 2 }

abbrev theirs : Conn
theirs = record {
  unread = (write_packet plain_zlib (9 ∷ 8 ∷ 7 ∷ []) ours).written ++ (4 ∷ []);
  written = [];
  src = receiver ∷ [];
  dst = [];
  threshold = pos 2;
}

read_packet-write_packet_example :
    (d' : Conn) × (read_packet plain_zlib theirs ≡ ok (9 ∷ 8 ∷ 7 ∷ [], d'))
    × InSync (write_packet plain_zlib (9 ∷ 8 ∷ 7 ∷ []) ours).dst d'.src
    × (d'.unread ≡ 4 ∷ [])
    × (d'.threshold ≡ pos 2)
read_packet-write_packet_example =
    read_packet-write_packet plain_zlib (λ b. refl) (λ b h. h) ours theirs (9 ∷ 8 ∷ 7 ∷ []) (4 ∷ [])
      ((toy_block, gives, new_cfb8-InStep toy_block 16 secret (omega arith) refl), tt) refl
      (omega arith) (omega arith) (omega arith) (unfold frame_body Writer.var_int in omega arith)
      refl
