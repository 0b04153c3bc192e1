-- ===== src/Packet/Layout.antt =====
-- The serverbound packets against the wire layout that a client sends.
use gomc.Prelude.{ℕ, ◌-◌, ◌^◌, ◌<◌, ◌≤◌, ◌≡◌, true, arith, List, ◌++◌}
use gomc.Prelude.{length, get_or, ap}
use gomc.Codec.Writer
use gomc.Codec.Utf8.{valid}
use gomc.Codec.Reads.{Reads, bind-Reads, map-Reads}
use gomc.Codec.Numbers.{fixed-Reads, raw_byte-Reads}
use gomc.Codec.VarInt.{var_int-Reads}
use gomc.Codec.Compound.{Fits, string-Reads, uuid-Reads, position-Reads}
use gomc.Codec.Ends.{Ends, bind-Ends, remaining_bytes-Ends}
use gomc.Packet.Joining
use gomc.Packet.Playing
use gomc.Packet.Trailing.{trailing_var_int-var_int}

-- Handshake: the protocol version, an address within 1020 bytes of valid UTF-8, the port, the next
-- state, each within its width, are the fields that are decoded from their four encodings in a row.
pub decode_handshake-Reads :
    (p : Joining.Handshake)
    → p.protocol_version < 2 ^ 32
    → (valid p.server_address ≡ true) × (length p.server_address ≤ 1020)
    → p.server_port < 2 ^ 16
    → p.next_state < 2 ^ 32
    → Reads Joining.decode_handshake
        (Writer.var_int p.protocol_version
          ++ (Writer.string p.server_address
              ++ (Writer.u_short p.server_port ++ Writer.var_int p.next_state)))
        p
unfolding Joining.decode_handshake
decode_handshake-Reads p hv (ok, fits) hp hn = bind-Reads _ (var_int-Reads p.protocol_version hv) (
    bind-Reads _ (string-Reads 255 p.server_address ok (omega arith) (omega arith)) (
      bind-Reads _ (fixed-Reads 2 p.server_port (omega arith))
        (map-Reads _ (var_int-Reads p.next_state hn))))

-- LoginStart: a name of valid UTF-8 within 64 bytes and a UUID of 16 bytes.
pub decode_login_start-Reads :
    (p : Joining.LoginStart)
    → (valid p.name ≡ true) × (length p.name ≤ 64)
    → length p.uuid ≡ 16
    → Reads Joining.decode_login_start (Writer.string p.name ++ Writer.uuid p.uuid) p
unfolding Joining.decode_login_start
decode_login_start-Reads p (ok, fits) hu =
    bind-Reads _ (string-Reads 16 p.name ok (omega arith) (omega arith))
      (map-Reads _ (uuid-Reads p.uuid hu))

-- PlayerAction: the status, a position that fits its bits, the face and the sequence.
pub decode_player_action-Reads :
    (p : Playing.PlayerAction)
    → p.status < 2 ^ 32
    → Fits 26 p.x × Fits 12 p.y × Fits 26 p.z
    → p.sequence < 2 ^ 32
    → Reads Playing.decode_player_action
        (Writer.var_int p.status
          ++ (Writer.position p.x p.y p.z ++ (Writer.u_byte p.face ++ Writer.var_int p.sequence)))
        p
unfolding Playing.decode_player_action
decode_player_action-Reads p hs (hx, hy, hz) hq = bind-Reads _ (var_int-Reads p.status hs) (
    bind-Reads _ (position-Reads p.x p.y p.z hx hy hz)
      (bind-Reads _ (raw_byte-Reads p.face) (map-Reads _ (var_int-Reads p.sequence hq))))

-- UseItemOn: the hand, a position that fits its bits and the face are decoded, then whatever bytes
-- come, and the sequence from the end of the packet, provided that the byte before it is below 128.
-- All of the packet is read.
pub decode_use_item_on-Ends :
    (p : Playing.UseItemOn) (tail : List ℕ)
    → p.hand < 2 ^ 32
    → Fits 26 p.x × Fits 12 p.y × Fits 26 p.z
    → p.face < 2 ^ 32
    → p.sequence < 2 ^ 32
    → get_or tail (length tail - 1) 0 < 128
    → Ends Playing.decode_use_item_on
        (Writer.var_int p.hand
          ++ (Writer.position p.x p.y p.z
              ++ (Writer.var_int p.face ++ (tail ++ Writer.var_int p.sequence))))
        p
unfolding Playing.decode_use_item_on
decode_use_item_on-Ends p tail hh (hx, hy, hz) hf hs ht = bind-Ends _ (var_int-Reads p.hand hh) (
    bind-Ends _ (position-Reads p.x p.y p.z hx hy hz) (
      bind-Ends _ (var_int-Reads p.face hf) (
        remaining_bytes-Ends _ (tail ++ Writer.var_int p.sequence) (
          ap
            (λ (q : ℕ). record {
              hand = p.hand;
              x = p.x;
              y = p.y;
              z = p.z;
              face = p.face;
              sequence = q;
            })
            (trailing_var_int-var_int tail p.sequence ht hs)))))
