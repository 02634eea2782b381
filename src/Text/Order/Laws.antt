-- ===== src/Text/Order/Laws.antt =====
-- The order of texts is total, and sorting forgets the order of its input.
use mathlib.Core.List.{Permᴰ}
use Prim.Native.String.{[], ◌∷◌}
use text.Mathlib.TextEquality.{Char-path}
use bootup.Common.{
  List, String, [], ap, arith, code, contains, false, refl, true, ◌==◌, ◌||◌, ◌∙◌, ◌∷◌, ◌≡◌,
}
use bootup.Text.Order.{insert_text, sort_texts, text_le}

pub text_le_refl : (s : String) → text_le s s ≡ true
unfolding text_le
text_le_refl [] = refl
text_le_refl (c ∷ s) = ground (arith, text_le_refl s)

pub text_le_total : (s t : String) → text_le s t ≡ false → text_le t s ≡ true
unfolding text_le
text_le_total [] t h = cc
text_le_total (c ∷ s) [] h = refl
text_le_total (c ∷ s) (d ∷ t) h = ground (arith, text_le_total s t)

pub text_le_trans : (s t u : String) → text_le s t ≡ true → text_le t u ≡ true → text_le s u ≡ true
unfolding text_le
text_le_trans [] t u h k = refl
text_le_trans (c ∷ s) [] u h k = cc
text_le_trans (c ∷ s) (d ∷ t) [] h k = cc
text_le_trans (c ∷ s) (d ∷ t) (e ∷ u) h k = ground (arith, text_le_trans s t u)

pub text_le_antisym : (s t : String) → text_le s t ≡ true → text_le t s ≡ true → s ≡ t
unfolding text_le
text_le_antisym [] [] h k = refl
text_le_antisym [] (d ∷ t) h k = cc
text_le_antisym (c ∷ s) [] h k = cc
text_le_antisym (c ∷ s) (d ∷ t) h k =
    let same : code c ≡ code d = ground arith in
    rw (Char-path c d same, text_le_antisym s t (ground arith) (ground arith))

insert_comm :
    (x y : String) (zs : List String)
    → insert_text x (insert_text y zs) ≡ insert_text y (insert_text x zs)
unfolding insert_text
insert_comm x y List.[] = ground (arith, text_le_total x y, text_le_total y x, text_le_antisym x y)
insert_comm x y (List.◌∷◌ z zs) = ground (
  arith,
  text_le_total x y,
  text_le_total y x,
  text_le_antisym x y,
  text_le_trans x y z,
  text_le_trans y x z,
  text_le_total x z,
  text_le_total y z,
  text_le_trans x z y,
  text_le_trans y z x,
  insert_comm x y zs,
)

-- Sorting forgets the order.
pub sort_texts-Permᴰ : (xs ys : List String) → Permᴰ xs ys → sort_texts xs ≡ sort_texts ys
unfolding sort_texts
sort_texts-Permᴰ xs ys (Permᴰ.nil) = refl
sort_texts-Permᴰ xs ys (Permᴰ.cons {l₁ = l₁} {l₂ = l₂} e p) = rw (e, sort_texts-Permᴰ l₁ l₂ p)
sort_texts-Permᴰ xs ys (Permᴰ.swap {a = a} {b = b} {l = l} e f) =
    rw (← e, ← f) (insert_comm a b (sort_texts l))
sort_texts-Permᴰ xs ys (Permᴰ.trans {l₂ = l₂} p q) =
    sort_texts-Permᴰ xs l₂ p ∙ sort_texts-Permᴰ l₂ ys q

contains-insert_text :
    (k x : String) (xs : List String) → contains k (insert_text x xs) ≡ (x == k || contains k xs)
unfolding insert_text
contains-insert_text k x List.[] = refl
contains-insert_text k x (List.◌∷◌ y ys) = ground (arith, contains-insert_text k x ys)

-- Sorting keeps the members.
pub contains-sort_texts :
    (k : String) (xs : List String) → contains k (sort_texts xs) ≡ contains k xs
unfolding sort_texts
contains-sort_texts k List.[] = refl
contains-sort_texts k (List.◌∷◌ x xs) =
    contains-insert_text k x (sort_texts xs) ∙ ap (λ b. x == k || b) (contains-sort_texts k xs)
