-- ===== src/Packet/Sent/Configuration.antt =====
-- internal/protocol/packet: the clientbound packets of configuration.go. FinishConfiguration
-- has no body.
use gomc.Prelude.{ℕ, List, ◌++◌, Option, none, some, true, false}
use mathlib.Core.List.{flat_map}
use gomc.Codec.Writer.{bool, long, var_int, len32}
use gomc.Codec.Writer.{string, identifier, raw}

pub record PluginMessageClientbound : Type 0 where
  pub channel : List ℕ
  pub payload : List ℕ

unfoldable pub encode_plugin_message_clientbound : PluginMessageClientbound → List ℕ
encode_plugin_message_clientbound p = identifier p.channel ++ raw p.payload

-- In Play the struct is KeepAlivePlayClientbound, with the same body.
pub record KeepAliveClientbound : Type 0 where
  pub keep_alive_id : ℕ

unfoldable pub encode_keep_alive_clientbound : KeepAliveClientbound → List ℕ
encode_keep_alive_clientbound p = long p.keep_alive_id

pub record FeatureFlags : Type 0 where
  pub flags : List (List ℕ)

unfoldable pub encode_feature_flags : FeatureFlags → List ℕ
encode_feature_flags p = var_int (len32 p.flags) ++ flat_map identifier p.flags

pub record KnownPackEntry : Type 0 where
  pub namespace : List ℕ
  pub id : List ℕ
  pub version : List ℕ

unfoldable pub encode_known_pack_entry : KnownPackEntry → List ℕ
encode_known_pack_entry p = string p.namespace ++ string p.id ++ string p.version

pub record ClientboundKnownPacks : Type 0 where
  pub packs : List KnownPackEntry

unfoldable pub encode_clientbound_known_packs : ClientboundKnownPacks → List ℕ
encode_clientbound_known_packs p =
    var_int (len32 p.packs) ++ flat_map encode_known_pack_entry p.packs

pub record UpdateTags : Type 0 where
  pub payload : List ℕ

unfoldable pub encode_update_tags : UpdateTags → List ℕ
encode_update_tags p = raw p.payload

-- A nil payload is sent as has_data = false.
pub record RegistryEntry : Type 0 where
  pub id : List ℕ
  pub payload : Option (List ℕ)

unfoldable pub encode_registry_entry : RegistryEntry → List ℕ
encode_registry_entry p =
    identifier p.id ++ (elim p.payload [ none ↦ bool false | some b ↦ bool true ++ raw b ])

pub record RegistryData : Type 0 where
  pub registry : List ℕ
  pub entries : List RegistryEntry

unfoldable pub encode_registry_data : RegistryData → List ℕ
encode_registry_data p =
    identifier p.registry ++ var_int (len32 p.entries) ++ flat_map encode_registry_entry p.entries
