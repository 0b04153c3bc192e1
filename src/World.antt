-- ===== src/World.antt =====
-- internal/game/world: the superflat world and its overrides.
pub mod Palette
pub mod Chunk
pub mod Blocks
pub mod Items
mod Examples
