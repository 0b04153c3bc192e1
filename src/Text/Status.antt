-- ===== src/Text/Status.antt =====
-- internal/protocol/text/status.go: the document of a server-list ping.
use gomc.Prelude.{ℕ, ℤ, Bool, List}
use gomc.Text.{Component}

pub record StatusVersion : Type 0 where
  pub name : List ℕ
  pub protocol : ℕ

pub record StatusPlayerSample : Type 0 where
  pub name : List ℕ
  pub id : List ℕ

pub record StatusPlayers : Type 0 where
  pub max : ℤ
  pub online : ℕ
  pub sample : List StatusPlayerSample

pub record StatusResponse : Type 0 where
  pub version : StatusVersion
  pub players : StatusPlayers
  pub description : Component
  pub favicon : List ℕ
  pub enforces_secure_chat : Bool
