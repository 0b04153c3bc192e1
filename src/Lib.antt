-- ===== src/Lib.antt =====
-- A model of gomc, a Minecraft Java Edition server, and the theorems about it.
--
-- The program's parts, all under internal/, and the files that model them:
--   protocol/codec   Codec/Reader (codec.go, reader.go), Codec/Writer (writer.go), Codec/Uuid
--                    (uuid.go), Codec/Utf8 (what is used of unicode/utf8)
--   protocol/frame   Frame/Cfb8 (cfb8.go), Frame/Conn (frame.go)
--   protocol/packet  Packet/Joining (serverbound packets of handshake.go, status.go, login.go and
--                    configuration.go), Packet/Playing (those of play.go, block.go, chat.go and
--                    inventory.go), Packet/Registry (packet.go and the init functions), Packet/Sent
--                    (clientbound packets), Packet/Ids (their ids)
--   game/world       World/Palette (palette.go), World/Chunk (chunk.go, block.go), World/Blocks
--                    (world.go), World/Items (itemblock.go)
--   game/loop        Hub (the registry and its handlers), Hub/Move (onMove), Hub/Run (the loop),
--                    Hub/Channels (the channels and the methods that sessions call), all of hub.go;
--                    Hub/View is a client that reads what the hub sends
--   protocol/text    Text (component.go), Text/Status (status.go), Text/Utf8 (the runes of a
--                    string)
--   protocol/auth    Auth (digest.go), Auth/Mojang (mojang.go)
--   server           Server (config.go, server.go), Server/Sessions (its sessions' options)
--   protocol/nbt     Nbt (tag.go), Nbt/Mutf8 (mutf8.go), Nbt/Encode (encode.go), Nbt/Decode
--                    (decode.go)
--   net/session      Session/State (the Session and what it asks of other parts), Session/Chunks
--                    (the streaming of columns), Session/Login (the handlers up to Configuration),
--                    Session/Play, Session/Handle (handle, Serve), Session/Running (the
--                    keep-alive loop and the writer of queued packets beside the handlers),
--                    all of session.go
-- A connection's bytes go through the ciphers of `Conn`, are cut into frames, opened, and decoded
-- by the methods of a Reader; what a session sends is built by the methods of a Writer and framed.
-- The session dispatches a decoded packet to its handler, and asks the hub to join, move, chat or
-- set a block. The hub applies block changes to the world and queues packets for the sessions.
--
-- A handler is an `Act`: from a session to an error, if any, and the session afterwards. The
-- session records what it sent and what it asked of the hub. Its options, and what it takes from
-- libraries, the world as it stands included, stand in `Deps`. A run-time panic (an index out of
-- range, a nil key pair) is one of the errors, and `panics` tells it from those that the code
-- returns; nothing recovers from one, so that it ends the program.
--
-- Conventions. A byte is a number below 256, a byte slice and a string are lists of them. An intN
-- is its two's complement word, a float the word of its bits. A method that changes its receiver
-- takes it and returns it; a chain of reads is a `do` block. A method of the Writer is the bytes
-- that it appends. An error value is a constructor of a data type.
--
-- Loops. The VarInt loop of the Writer recurs on the accessibility of its word, those of the Reader
-- and of `readLength` on the rounds left, all others on a list or a count. `bitsFor` has the size
-- of the palette as its fuel. The two loops of `updateChunks` have fuel for the 17 values of an
-- axis; `runaway` stands for a loop that has not ended then. `readPayload` recurs on the levels of
-- nesting that are left, its loop over the fields of a compound has a round for each byte left and
-- one.
--
-- Parameters: compress/zlib (`Zlib`), the block function of crypto/aes, crypto/sha1, crypto/md5,
-- the RSA key, the session service, json.Marshal, the embedded registries, net/url, net/http, the
-- listener and the arithmetic of floats (`Floats`). What is assumed of them stands among a
-- theorem's hypotheses; for floats that is `FloatLaws`.
--
-- Not modelled: the parsing of the embedded tables; the registry, the JSON forms of text, the RSA key
-- of auth, the listener itself and main, which are input, output and libraries.
pub mod Prelude
pub mod Codec
pub mod Frame
pub mod Auth
pub mod Hub
pub mod Nbt
pub mod Packet
pub mod Server
pub mod Session
pub mod Text
pub mod World
