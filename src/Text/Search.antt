-- ===== src/Text/Search.antt =====
-- strings.HasPrefix, HasSuffix, TrimPrefix, Contains, ContainsAny, Count, ReplaceAll, Join, Split.
-- A text that is searched for is not empty.
use Prim.Native.String
use Prim.Native.String.{[], ◌∷◌}
use bootup.Common.{
  ℕ, zero, suc, ◌+◌, ◌-◌, String, code, Bool, true, false, ◌&&◌, ◌||◌, eqb, List, if◌then◌else◌,
}

abbrev pub rune_count : String → ℕ
rune_count [] = 0
rune_count (c ∷ s) = suc (rune_count s)

unfoldable pub has_prefix : String → String → Bool
has_prefix s [] = true
has_prefix [] (d ∷ p) = false
has_prefix (c ∷ s) (d ∷ p) = eqb (code c) (code d) && has_prefix s p

abbrev pub drop : ℕ → String → String
drop zero s = s
drop (suc n) [] = []
drop (suc n) (c ∷ s) = drop n s

unfoldable pub trim_prefix : String → String → String
unfolding has_prefix
trim_prefix s p = if has_prefix s p then drop (rune_count p) s else s

-- strings.Contains
unfoldable pub has_part : String → String → Bool
unfolding has_prefix
has_part [] p = has_prefix [] p
has_part (c ∷ s) p = has_prefix (c ∷ s) p || has_part s p

-- strings.ContainsRune
abbrev pub has_rune : ℕ → String → Bool
has_rune n [] = false
has_rune n (c ∷ s) = eqb (code c) n || has_rune n s

module _ (p : String) where
  -- the number is that of the runes of a match that are still to be skipped
  unfoldable pub count_from : ℕ → String → ℕ
  unfolding has_prefix
  count_from skip [] = 0
  count_from (suc k) (c ∷ s) = count_from k s
  count_from zero (c ∷ s) =
      let found = 1 + count_from (rune_count p - 1) s in
      let next = count_from 0 s in if has_prefix (c ∷ s) p then found else next

  unfoldable pub replace_from : String → ℕ → String → String
  unfolding has_prefix
  replace_from new skip [] = []
  replace_from new (suc k) (c ∷ s) = replace_from new k s
  replace_from new zero (c ∷ s) =
      let found = String.◌++◌ new (replace_from new (rune_count p - 1) s) in
      let next = c ∷ replace_from new 0 s in if has_prefix (c ∷ s) p then found else next

-- strings.Count
unfoldable pub count_parts : String → String → ℕ
unfolding count_from
count_parts s p = count_from p 0 s

-- strings.ReplaceAll
unfoldable pub replace_all : String → String → String → String
unfolding replace_from
replace_all s p new = replace_from p new 0 s

-- the loop of strings.Join
unfoldable pub join_more : String → List String → String
join_more sep List.[] = []
join_more sep (List.◌∷◌ x xs) = String.◌++◌ sep (String.◌++◌ x (join_more sep xs))

-- strings.Join
unfoldable pub join : List String → String → String
unfolding join_more
join List.[] sep = []
join (List.◌∷◌ x xs) sep = String.◌++◌ x (join_more sep xs)
