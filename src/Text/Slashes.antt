-- ===== src/Text/Slashes.antt =====
-- strings.TrimRight and TrimLeft at a single rune, strings.HasSuffix and TrimSuffix, strings.Cut and
-- Index, and what the program builds of them for paths in URLs.
use Prim.Native.String
use Prim.Native.String.{[], ◌∷◌}
use bootup.Common.{
  Bool, Char, List, Option, String, [], code, eqb, if◌then◌else◌, none, some, ℕ, ◌==◌, ◌||◌, ◌∷◌,
}
use bootup.Text.Runes.{is_empty}
use bootup.Text.Search.{drop, has_prefix, rune_count}
use bootup.Text.Cleaning.{last_part, split}

-- the rune is dropped where nothing is left behind it
abbrev keep_unless : ℕ → Char → String → String
keep_unless n c [] = if eqb (code c) n then [] else c ∷ []
keep_unless n c (d ∷ s) = c ∷ d ∷ s

-- strings.TrimRight
unfoldable pub trim_right_rune : ℕ → String → String
trim_right_rune n [] = []
trim_right_rune n (c ∷ s) = keep_unless n c (trim_right_rune n s)

-- strings.TrimLeft
unfoldable pub trim_left_rune : ℕ → String → String
trim_left_rune n [] = []
trim_left_rune n (c ∷ s) = if eqb (code c) n then trim_left_rune n s else c ∷ s

-- strings.HasSuffix
unfoldable pub has_suffix : String → String → Bool
has_suffix [] p = is_empty p
has_suffix (c ∷ s) p = (c ∷ s) == p || has_suffix s p

-- strings.TrimSuffix
unfoldable pub trim_suffix : String → String → String
trim_suffix [] p = []
trim_suffix (c ∷ s) p = if (c ∷ s) == p then [] else c ∷ trim_suffix s p

-- strings.Cut at a single rune
abbrev push_cut : Char → Option (String × String) → Option (String × String)
push_cut c none = none
push_cut c (some (before, after)) = some (c ∷ before, after)

unfoldable pub cut : ℕ → String → Option (String × String)
cut n [] = none
cut n (c ∷ s) = let rest = cut n s in if eqb (code c) n then some ([], s) else push_cut c rest

-- what stands behind the first occurrence of a part
unfoldable pub after_part : String → String → Option String
unfolding has_prefix
after_part p [] = if is_empty p then some [] else none
after_part p (c ∷ s) =
    if has_prefix (c ∷ s) p then some (drop (rune_count p) (c ∷ s)) else after_part p s

-- what stands behind the last occurrence of a rune, and the whole text where there is none
unfoldable pub after_last : ℕ → String → String
unfolding split
after_last n s = last_part s (split n s)

-- a `+` of several texts
abbrev pub concat : List String → String
concat List.[] = []
concat (List.◌∷◌ x xs) = String.◌++◌ x (concat xs)
