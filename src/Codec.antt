-- ===== src/Codec.antt =====
-- internal/protocol/codec: the primitive types of the wire. `Reader` and `Writer` are the two
-- structs with their methods, `Utf8` is what the Reader uses of unicode/utf8, `Uuid` is uuid.go;
-- the other modules prove.
pub mod Utf8
pub mod Reader
pub mod Writer
pub mod Uuid
pub mod Reads
pub mod Numbers
pub mod VarInt
pub mod Safe
pub mod Compound
pub mod Ends
mod Examples
