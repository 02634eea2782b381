-- ===== src/Text/Fields.antt =====
-- strings.Fields, and the length of a text in UTF-8 bytes.
use Prim.Native.String.{[], ◌∷◌}
use bootup.Common.{Bool, Char, List, String, [], code, false, if◌then◌else◌, ltb, true, ℕ, ◌+◌, ◌∷◌}
use bootup.Text.Runes.{is_space}
use bootup.Text.Cleaning.{push_rune}

-- the text is empty or begins with white space
abbrev starts_white : String → Bool
starts_white [] = true
starts_white (c ∷ s) = is_space (code c)

-- a rune that is no white space, in front of the fields of the rest
add_ink : Char → Bool → List String → List String
add_ink c true fs = List.◌∷◌ (c ∷ []) fs
add_ink c false fs = push_rune c fs

-- strings.Fields
unfoldable pub fields : String → List String
unfolding is_space add_ink
fields [] = List.[]
fields (c ∷ s) =
    let rest = fields s in if is_space (code c) then rest else add_ink c (starts_white s) rest

abbrev utf8_width : ℕ → ℕ
utf8_width r = if ltb r 0x80 then 1 else if ltb r 0x800 then 2 else if ltb r 0x10000 then 3 else 4

-- `len(s)`
unfoldable pub byte_len : String → ℕ
byte_len [] = 0
byte_len (c ∷ s) = utf8_width (code c) + byte_len s
