-- ===== src/Nbt.antt =====
-- internal/protocol/nbt/tag.go: tags and the ordered compound. A string is the list of its runes; a
-- number is its two's complement word or, of a float, its bits.
pub mod Mutf8
pub mod Encode
pub mod Decode
pub mod Masks
pub mod Text
pub mod Runes
pub mod Writable
pub mod RoundTrip
pub mod Safe
pub mod Rounds
mod Examples
use gomc.Prelude.{ℕ, suc, ◌==◌, ◌&&◌, Bool, true, false, List, [], ◌∷◌, Option, none, some}
use gomc.Prelude.{if◌then◌else◌}

-- `nil` is the nil interface. The elements of a list are `Tags`, and the keys and values of a
-- compound, in their order, `Fields`.
mutual
  pub data Tag : Type 0 where
    nil : Tag
    byte short int long float double : ℕ → Tag
    byte_array string int_array long_array : List ℕ → Tag
    list : (elem_type : ℕ) → Tags → Tag
    compound : Fields → Tag

  pub data Tags : Type 0 where
    no_elem : Tags
    elem : Tag → Tags → Tags

  pub data Fields : Type 0 where
    no_field : Fields
    field : List ℕ → Tag → Fields → Fields

abbrev pub tag_end : ℕ
tag_end = 0

-- TypeID; of a nil Tag the code never asks it, and TagEnd is what stands for it.
unfoldable pub type_id : Tag → ℕ
type_id Tag.nil = tag_end
type_id (Tag.byte v) = 1
type_id (Tag.short v) = 2
type_id (Tag.int v) = 3
type_id (Tag.long v) = 4
type_id (Tag.float v) = 5
type_id (Tag.double v) = 6
type_id (Tag.byte_array v) = 7
type_id (Tag.string v) = 8
type_id (Tag.list et es) = 9
type_id (Tag.compound fs) = 10
type_id (Tag.int_array v) = 11
type_id (Tag.long_array v) = 12

unfoldable pub same_name : List ℕ → List ℕ → Bool
same_name [] [] = true
same_name [] (b ∷ bs) = false
same_name (a ∷ as_) [] = false
same_name (a ∷ as_) (b ∷ bs) = a == b && same_name as_ bs

-- `c.vals[name]`
unfoldable pub get : List ℕ → Fields → Option Tag
get name Fields.no_field = none
get name (Fields.field key t fs) =
    let rest = get name fs in if same_name name key then some t else rest

-- A key that is there keeps its place, a new one comes last.
unfoldable pub set : List ℕ → Tag → Fields → Fields
set name t Fields.no_field = Fields.field name t Fields.no_field
set name t (Fields.field key u fs) =
    let rest = set name t fs in
    if same_name name key then Fields.field key t fs else Fields.field key u rest

unfoldable pub len : Fields → ℕ
len Fields.no_field = 0
len (Fields.field key t fs) = suc (len fs)

unfoldable pub size : Tags → ℕ
size Tags.no_elem = 0
size (Tags.elem t ts) = suc (size ts)
