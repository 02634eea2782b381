-- ===== src/Text/Order.antt =====
-- sort.Strings: insertion sort in the order of code points, which is that of UTF-8 bytes.
pub mod Laws
use Prim.Native.String.{[], ◌∷◌}
use bootup.Common.{
  Bool, List, String, [], code, eqb, false, if◌then◌else◌, ltb, true, ◌&&◌, ◌||◌, ◌∷◌,
}

unfoldable pub text_le : String → String → Bool
text_le [] t = true
text_le (c ∷ s) [] = false
text_le (c ∷ s) (d ∷ t) = ltb (code c) (code d) || (eqb (code c) (code d) && text_le s t)

unfoldable pub insert_text : String → List String → List String
unfolding text_le
insert_text x List.[] = List.◌∷◌ x List.[]
insert_text x (List.◌∷◌ y ys) =
    if text_le x y then List.◌∷◌ x (List.◌∷◌ y ys) else List.◌∷◌ y (insert_text x ys)

unfoldable pub sort_texts : List String → List String
unfolding insert_text
sort_texts List.[] = List.[]
sort_texts (List.◌∷◌ x xs) = insert_text x (sort_texts xs)
