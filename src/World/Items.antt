-- ===== src/World/Items.antt =====
-- internal/game/world/itemblock.go: the lookups. The two tables, which are parsed from embedded
-- data, are parameters.
use gomc.Prelude.{ℕ, ◌==◌, Bool, true, false, Option, none, some, if◌then◌else◌}

module _ (item_to_block : ℕ → Option ℕ) (item_to_axis : ℕ → Option (ℕ × ℕ × ℕ)) where
  unfoldable pub block_state_for_item : ℕ → ℕ × Bool
  block_state_for_item item_id = elim (item_to_block item_id) [
    | none ↦ (0, false)
    | some state ↦ (state, true)
  ]

  -- `states[axis]`, where any axis but 0, 1 and 2 stands for 1.
  abbrev pub oriented : ℕ × ℕ × ℕ → ℕ → ℕ
  oriented (x, y, z) axis = if axis == 0 then x else if axis == 2 then z else y

  unfoldable pub block_state_for_item_axis : ℕ → ℕ → ℕ × Bool
  block_state_for_item_axis item_id axis = elim (item_to_axis item_id) [
    | some states ↦ (oriented states axis, true)
    | none ↦ block_state_for_item item_id
  ]
