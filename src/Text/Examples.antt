-- ===== src/Text/Examples.antt =====
-- Concrete runs of package text, after component_test.go.
use gomc.Prelude.{◌≡◌, refl, [], ◌∷◌, none, some, true}
use gomc.Nbt.{Tag, Fields, set, same_name}
use gomc.Text.{
  Component, Components, plain, nbt, is_simple, compound, set_bool, set_color, set_styles,
}
use gomc.Text.{set_extra}
use gomc.Text.Utf8.{runes, runes_from, first_rune}

plain_hi : nbt (plain (b'h' ∷ b'i' ∷ [])) ≡ Tag.string (b'h' ∷ b'i' ∷ [])
unfolding nbt plain is_simple compound
plain_hi = refl

bold_hi :
    nbt (Component.component (b'h' ∷ []) [] (some true) none none none none Components.no_component)
    ≡ Tag.compound (
        Fields.field
          (b't' ∷ b'e' ∷ b'x' ∷ b't' ∷ [])
          (Tag.string (b'h' ∷ []))
          (Fields.field (b'b' ∷ b'o' ∷ b'l' ∷ b'd' ∷ []) (Tag.byte 1) Fields.no_field))
unfolding nbt is_simple compound set_extra set_styles set_color set_bool set same_name
bold_hi = refl

-- "é" and a byte that begins nothing.
runes_of_e : runes (0xc3 ∷ 0xa9 ∷ 0xff ∷ []) ≡ 0xe9 ∷ 0xfffd ∷ []
unfolding runes runes_from first_rune
runes_of_e = refl
