-- ===== src/Text/Cleaning.antt =====
-- strings.Split at a single rune, and path.Clean.
pub mod Laws
use Prim.Native.String
use Prim.Native.String.{[], ◌∷◌}
use mathlib.Core.List.{reverse}
use bootup.Common.{
  Bool, Char, List, String, [], code, eqb, false, if◌then◌else◌, not, true, ℕ, ◌++◌, ◌==◌, ◌||◌,
  ◌∷◌,
}
use bootup.Text.Runes.{is_empty}
use bootup.Text.Search.{has_prefix, join}

-- a rune in front of the first part
abbrev pub push_rune : Char → List String → List String
push_rune c List.[] = List.◌∷◌ (c ∷ []) List.[]
push_rune c (List.◌∷◌ x xs) = List.◌∷◌ (c ∷ x) xs

-- strings.Split at the rune `sep`
unfoldable pub split : ℕ → String → List String
split sep [] = List.◌∷◌ [] List.[]
split sep (c ∷ s) =
    let parts = split sep s in if eqb (code c) sep then List.◌∷◌ [] parts else push_rune c parts

-- The element ".." against the elements before it, the last one first.
unfoldable pub step_up : Bool → List String → List String
step_up true List.[] = List.[]
step_up false List.[] = List.◌∷◌ ".." List.[]
step_up rooted (List.◌∷◌ top stack) =
    if top == ".." then List.◌∷◌ ".." (List.◌∷◌ top stack) else stack

-- One element of a path.
unfoldable pub resolve : Bool → List String → String → List String
unfolding step_up
resolve rooted stack part =
    if is_empty part || part == "."
    then stack
    else if part == ".."
    then step_up rooted stack
    else List.◌∷◌ part stack

unfoldable pub resolve_all : Bool → List String → List String → List String
unfolding resolve
resolve_all rooted stack List.[] = stack
resolve_all rooted stack (List.◌∷◌ part parts) =
    resolve_all rooted (resolve rooted stack part) parts

-- path.Clean
unfoldable pub clean : String → String
unfolding split resolve_all has_prefix join
clean path =
    let rooted = has_prefix path "/" in
    let body = join (reverse (resolve_all rooted List.[] (split b'/' path))) "/" in
    let out = if rooted then String.◌++◌ "/" body else body in if is_empty out then "." else out

-- filepath.Join of a directory and a name, neither empty
abbrev pub join_path : String → String → String
join_path dir name = clean (String.◌++◌ dir (String.◌++◌ "/" name))

-- a slash is dropped where nothing is left behind it
abbrev keep_slash : Char → String → String
keep_slash c [] = if eqb (code c) b'/' then [] else c ∷ []
keep_slash c (d ∷ s) = c ∷ d ∷ s

unfoldable pub drop_end_slashes : String → String
drop_end_slashes [] = []
drop_end_slashes (c ∷ s) = keep_slash c (drop_end_slashes s)

abbrev pub last_part : String → List String → String
last_part x List.[] = x
last_part x (List.◌∷◌ y ys) = last_part y ys

-- a path up to its last slash
unfoldable pub up_to_slash : String → String
up_to_slash [] = []
up_to_slash (c ∷ s) =
    let rest = up_to_slash s in
    if not (is_empty rest) then c ∷ rest else if eqb (code c) b'/' then c ∷ [] else []

-- filepath.Dir
unfoldable pub dir_name : String → String
unfolding clean up_to_slash
dir_name path = clean (up_to_slash path)

-- filepath.Base
unfoldable pub base_name : String → String
unfolding drop_end_slashes split
base_name [] = "."
base_name (c ∷ s) =
    let trimmed = drop_end_slashes (c ∷ s) in
    if is_empty trimmed then "/" else last_part "" (split b'/' trimmed)
