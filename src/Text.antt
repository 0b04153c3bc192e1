-- ===== src/Text.antt =====
-- internal/protocol/text/component.go: a text component and its NBT form. A string is the list of its
-- runes, a *bool an Option. The JSON form is encoding/json's.
pub mod Utf8
pub mod Status
mod Examples
use gomc.Prelude.{ℕ, ◌&&◌, Bool, true, false, List, [], ◌∷◌, Option, none, some, if◌then◌else◌}
use gomc.Nbt.{Tag, Tags, Fields, set}

mutual
  pub data Component : Type 0 where
    component :
        (text color : List ℕ) (bold italic underlined strikethrough obfuscated : Option Bool)
        (extra : Components)
        → Component

  -- A slice of components.
  pub data Components : Type 0 where
    no_component : Components
    more : Component → Components → Components

unfoldable pub plain : List ℕ → Component
plain s = Component.component s [] none none none none none Components.no_component

abbrev unset : Option Bool → Bool
unset o = elim o [ none ↦ true | some b ↦ false ]

abbrev is_empty : List ℕ → Bool
is_empty s = elim s [ [] ↦ true | r ∷ rs ↦ false ]

abbrev no_extra : Components → Bool
no_extra cs = elim cs [ no_component ↦ true | more c rest ↦ false ]

unfoldable pub is_simple : Component → Bool
is_simple (Component.component text color b i u s o extra) =
    is_empty color && unset b && unset i && unset u && unset s && unset o && no_extra extra

unfoldable pub set_bool : List ℕ → Option Bool → Fields → Fields
set_bool key none fs = fs
set_bool key (some v) fs = set key (Tag.byte (if v then 1 else 0)) fs

unfoldable pub set_color : List ℕ → Fields → Fields
set_color [] fs = fs
set_color (r ∷ rs) fs = set (b'c' ∷ b'o' ∷ b'l' ∷ b'o' ∷ b'r' ∷ []) (Tag.string (r ∷ rs)) fs

-- The five styles, each under its name.
unfoldable pub set_styles :
    Option Bool → Option Bool → Option Bool → Option Bool → Option Bool → Fields → Fields
set_styles b i u s o fs =
    set_bool (b'o' ∷ b'b' ∷ b'f' ∷ b'u' ∷ b's' ∷ b'c' ∷ b'a' ∷ b't' ∷ b'e' ∷ b'd' ∷ []) o (
      set_bool
        (b's' ∷ b't' ∷ b'r' ∷ b'i' ∷ b'k' ∷ b'e' ∷ b't' ∷ b'h' ∷ b'r' ∷ b'o' ∷ b'u' ∷ b'g' ∷ b'h'
          ∷ [])
        s
        (set_bool (b'u' ∷ b'n' ∷ b'd' ∷ b'e' ∷ b'r' ∷ b'l' ∷ b'i' ∷ b'n' ∷ b'e' ∷ b'd' ∷ []) u (
          set_bool (b'i' ∷ b't' ∷ b'a' ∷ b'l' ∷ b'i' ∷ b'c' ∷ []) i
            (set_bool (b'b' ∷ b'o' ∷ b'l' ∷ b'd' ∷ []) b fs))))

unfoldable pub set_extra : Tags → Fields → Fields
set_extra Tags.no_elem fs = fs
set_extra (Tags.elem t ts) fs =
    set (b'e' ∷ b'x' ∷ b't' ∷ b'r' ∷ b'a' ∷ []) (Tag.list 10 (Tags.elem t ts)) fs

unfoldable mutual
  pub compound : Component → Tag
  compound (Component.component text color b i u s o extra) = Tag.compound (
      set_extra (compounds extra) (
        set_styles b i u s o (
          set_color color
            (set (b't' ∷ b'e' ∷ b'x' ∷ b't' ∷ []) (Tag.string text) Fields.no_field))))

  pub compounds : Components → Tags
  compounds Components.no_component = Tags.no_elem
  compounds (Components.more c rest) = Tags.elem (compound c) (compounds rest)

abbrev text_of : Component → List ℕ
text_of (Component.component text color b i u s o extra) = text

-- A bare string where there is nothing but text.
unfoldable pub nbt : Component → Tag
nbt c = let tree = compound c in if is_simple c then Tag.string (text_of c) else tree
