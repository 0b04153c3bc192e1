-- ===== src/Packet/Clientbound.antt =====
-- internal/protocol/packet: an Encoder is the constructor of `Clientbound` that holds its struct.
use gomc.Prelude.{ℕ, List, [], ◌++◌}
use gomc.Codec.Writer.{var_int}
use gomc.Packet.Ids
use gomc.Packet.Ids.{Sent}
use gomc.Packet.Sent.Login
use gomc.Packet.Sent.Configuration
use gomc.Packet.Sent.Play

-- The packets that a session sends by itself.
pub data Clientbound : Type 0 where
  finish_configuration : Clientbound
  status_response : Login.StatusResponse → Clientbound
  status_pong : Login.StatusPong → Clientbound
  encryption_request : Login.EncryptionRequest → Clientbound
  set_compression : Login.SetCompression → Clientbound
  login_success : Login.LoginSuccess → Clientbound
  plugin_message : Configuration.PluginMessageClientbound → Clientbound
  feature_flags : Configuration.FeatureFlags → Clientbound
  known_packs : Configuration.ClientboundKnownPacks → Clientbound
  registry_data : Configuration.RegistryData → Clientbound
  update_tags : Configuration.UpdateTags → Clientbound
  login_play : Play.LoginPlay → Clientbound
  game_event : Play.GameEvent → Clientbound
  set_center_chunk : Play.SetCenterChunk → Clientbound
  chunk_data : Play.ChunkData → Clientbound
  unload_chunk : Play.UnloadChunk → Clientbound
  sync_player_position : Play.SyncPlayerPosition → Clientbound
  block_changed_ack : Play.BlockChangedAck → Clientbound

-- The `ID` method.
unfoldable pub sent_as : Clientbound → Sent
sent_as Clientbound.finish_configuration = Sent.finish_configuration
sent_as (Clientbound.status_response p) = Sent.status_response
sent_as (Clientbound.status_pong p) = Sent.status_pong
sent_as (Clientbound.encryption_request p) = Sent.encryption_request
sent_as (Clientbound.set_compression p) = Sent.set_compression
sent_as (Clientbound.login_success p) = Sent.login_success
sent_as (Clientbound.plugin_message p) = Sent.plugin_message
sent_as (Clientbound.feature_flags p) = Sent.feature_flags
sent_as (Clientbound.known_packs p) = Sent.known_packs
sent_as (Clientbound.registry_data p) = Sent.registry_data
sent_as (Clientbound.update_tags p) = Sent.update_tags
sent_as (Clientbound.login_play p) = Sent.login_play
sent_as (Clientbound.game_event p) = Sent.game_event
sent_as (Clientbound.set_center_chunk p) = Sent.set_center_chunk
sent_as (Clientbound.chunk_data p) = Sent.chunk_data
sent_as (Clientbound.unload_chunk p) = Sent.unload_chunk
sent_as (Clientbound.sync_player_position p) = Sent.sync_player_position
sent_as (Clientbound.block_changed_ack p) = Sent.block_changed_ack

-- The `Encode` method.
unfoldable pub fields : Clientbound → List ℕ
fields Clientbound.finish_configuration = []
fields (Clientbound.status_response p) = Login.encode_status_response p
fields (Clientbound.status_pong p) = Login.encode_status_pong p
fields (Clientbound.encryption_request p) = Login.encode_encryption_request p
fields (Clientbound.set_compression p) = Login.encode_set_compression p
fields (Clientbound.login_success p) = Login.encode_login_success p
fields (Clientbound.plugin_message p) = Configuration.encode_plugin_message_clientbound p
fields (Clientbound.feature_flags p) = Configuration.encode_feature_flags p
fields (Clientbound.known_packs p) = Configuration.encode_clientbound_known_packs p
fields (Clientbound.registry_data p) = Configuration.encode_registry_data p
fields (Clientbound.update_tags p) = Configuration.encode_update_tags p
fields (Clientbound.login_play p) = Play.encode_login_play p
fields (Clientbound.game_event p) = Play.encode_game_event p
fields (Clientbound.set_center_chunk p) = Play.encode_set_center_chunk p
fields (Clientbound.chunk_data p) = Play.encode_chunk_data p
fields (Clientbound.unload_chunk p) = Play.encode_unload_chunk p
fields (Clientbound.sync_player_position p) = Play.encode_sync_player_position p
fields (Clientbound.block_changed_ack p) = Play.encode_block_changed_ack p

unfoldable pub encode : Clientbound → List ℕ
encode p = var_int (Ids.id (sent_as p)) ++ fields p
