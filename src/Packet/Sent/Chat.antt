-- ===== src/Packet/Sent/Chat.antt =====
-- internal/protocol/packet/chat.go: the system message.
use gomc.Prelude.{ℕ, Bool, List, ◌++◌}
use gomc.Codec.Writer
use gomc.Nbt.Encode.{write_network}
use gomc.Text.{Component, nbt}

pub record SystemChat : Type 0 where
  pub content : Component
  pub overlay : Bool

unfoldable pub encode_system_chat : SystemChat → List ℕ
encode_system_chat p = write_network (nbt p.content) ++ Writer.bool p.overlay
