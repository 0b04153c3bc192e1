-- ===== src/Session/Online.antt =====
-- A server in online mode, for concrete runs of a session.
use gomc.Prelude.{[], ◌∷◌, replicate, true, some, none, pos}
use gomc.Session.State.{Deps, Profile}

abbrev pub steve : Profile
steve = record { id = replicate 32 (b'0'); name = b'S' ∷ []; properties = [] }

-- A server in online mode with stand-ins for the libraries.
abbrev pub online : Deps
online = record {
  online_mode = true;
  compression_threshold = pos 256;
  world = none;
  has_hub = true;
  has_key_pair = true;
  next_entity_id = 7;
  zlib = record { deflate = λ b. b; inflate = some };
  aes = λ key word. word;
  decrypt = some;
  public_der = 1 ∷ 2 ∷ [];
  md5 = λ bytes. replicate 16 0;
  sha1 = λ bytes. replicate 20 0;
  token = some (1 ∷ 2 ∷ 3 ∷ 4 ∷ []);
  authenticate = λ name hash. some steve;
  accepts = λ c. true;
  status_json = some (b'{' ∷ b'}' ∷ []);
  chunk_of = λ bits. 0;
  synced_data = [];
  tags = 0 ∷ [];
  item_to_block = λ item. none;
  item_to_axis = λ item. none;
}
