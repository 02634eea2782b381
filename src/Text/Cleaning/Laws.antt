-- ===== src/Text/Cleaning/Laws.antt =====
-- What path.Clean leaves as it is: no relative path with an element "", "." or "..".
use Prim.Native.String
use Prim.Native.String.{[], ◌∷◌}
use mathlib.Core.List.{reverse, reverse-append}
use text.Mathlib.TextLemmas.{cons-append, nil-append, append-nil as text_append-nil}
use bootup.Common.{
  All, All-reverse_aux, Bool-cases, List, String, [], ap, arith, code, eq_iff, eqb, false,
  if◌then◌else◌, inl, inr, refl, true, ℕ, ◌++◌, ◌==◌, ◌||◌, ◌∙◌, ◌∷◌, ◌≡◌, ◌≢◌, ◌⊎◌,
}
use bootup.Text.Runes.{Every, is_empty}
use bootup.Text.Search.{has_prefix, join}
use bootup.Text.Cleaning.{clean, push_rune, resolve, resolve_all, split, step_up}

abbrev Lacks : ℕ → String → Type 0
Lacks sep = Every (λ c. eqb c sep ≡ false)

Lacks-split : (sep : ℕ) (s : String) → All (Lacks sep) (split sep s)
unfolding split
Lacks-split sep [] = (tt, tt)
Lacks-split sep (c ∷ s) = elim (Bool-cases (eqb (code c) sep)) [
  | inl cut ↦ rw cut (tt, Lacks-split sep s)
  | inr other ↦ rw other (Lacks-push_rune (split sep s) other (Lacks-split sep s))
]
  where
    Lacks-push_rune :
        (parts : List String)
        → eqb (code c) sep ≡ false
        → All (Lacks sep) parts
        → All (Lacks sep) (push_rune c parts)
    Lacks-push_rune List.[] e h = ((e, tt), tt)
    Lacks-push_rune (List.◌∷◌ x xs) e h = ((e, h.0), h.1)

split_whole : (sep : ℕ) (s : String) → Lacks sep s → split sep s ≡ List.◌∷◌ s List.[]
unfolding split
split_whole sep [] h = refl
split_whole sep (c ∷ s) h = rw (h.0, split_whole sep s h.1)

slash-append : (rest : String) → String.◌++◌ "/" rest ≡ "/" ∷ rest
slash-append rest = cons-append "/" [] rest ∙ ap (λ s. "/" ∷ s) (nil-append rest)

split_at :
    (x rest : String)
    → Lacks b'/' x
    → split b'/' (String.◌++◌ x (String.◌++◌ "/" rest)) ≡ List.◌∷◌ x (split b'/' rest)
unfolding split
split_at [] rest h = rw (nil-append, slash-append rest)
split_at (c ∷ x) rest h = rw (cons-append c x (String.◌++◌ "/" rest), h.0, split_at x rest h.1)

split-join :
    (x : String) (xs : List String)
    → All (Lacks b'/') (List.◌∷◌ x xs)
    → split b'/' (join (List.◌∷◌ x xs) "/") ≡ List.◌∷◌ x xs
unfolding join
split-join x List.[] h = rw text_append-nil (split_whole b'/' x h.0)
split-join x (List.◌∷◌ y ys) h = rw (split_at x _ h.0) (ap (List.◌∷◌ x) (split-join y ys h.1))

-- An element that stays where it is, and is not empty.
abbrev IsElement : String → Type 0
IsElement x = (is_empty x ≡ false) × ((x == ".") ≡ false) × Lacks b'/' x

abbrev IsUp : String → Type 0
IsUp x = (x == "..") ≡ true

abbrev IsDown : String → Type 0
IsDown x = (x == "..") ≡ false

-- The elements so far, the last one first: below ".." there is nothing but "..".
abbrev IsStack : List String → Type 0
IsStack List.[] = Unit
IsStack (List.◌∷◌ x st) = IsElement x × (IsUp x → All IsUp st) × IsStack st

step_up-IsStack : (st : List String) → IsStack st → IsStack (step_up false st)
unfolding step_up
step_up-IsStack List.[] h = ((refl, refl, (refl, (refl, tt))), (λ _. tt), tt)
step_up-IsStack (List.◌∷◌ top st) h = elim (Bool-cases (top == "..")) [
  | inl up ↦ rw up ((refl, refl, (refl, (refl, tt))), (λ _. (up, h.1 up)), h)
  | inr down ↦ rw down h.2
]

resolve-IsStack :
    (st : List String) (x : String) → Lacks b'/' x → IsStack st → IsStack (resolve false st x)
unfolding resolve
resolve-IsStack st x lacks h = elim (Bool-cases (is_empty x || x == ".")) [
  | inl skip ↦ rw skip h
  | inr keep ↦ elim (Bool-cases (x == "..")) [
    | inl up ↦ rw (keep, up) (step_up-IsStack st h)
    | inr down ↦
        rw (keep, down) ((ground arith, ground arith, lacks), (λ up. absurd (cc (up, down))), h)
  ]
]

resolve_all-IsStack :
    (parts st : List String)
    → All (Lacks b'/') parts
    → IsStack st
    → IsStack (resolve_all false st parts)
unfolding resolve_all
resolve_all-IsStack List.[] st l h = h
resolve_all-IsStack (List.◌∷◌ x parts) st l h =
    resolve_all-IsStack parts (resolve false st x) l.1 (resolve-IsStack st x l.0 h)

no_ups-nil : (st : List String) → All IsUp st → All IsDown st → st ≡ List.[]
no_ups-nil List.[] up down = refl
no_ups-nil (List.◌∷◌ y st) up down = absurd (cc (up.0, down.0))

bottom_of :
    (st : List String)
    → IsStack st
    → All IsDown st ⊎ ((pre : List String) × (st ≡ pre ++ List.◌∷◌ ".." List.[]))
bottom_of List.[] h = inl tt
bottom_of (List.◌∷◌ x st) h = elim (bottom_of st h.2) [
  | inr (pre, e) ↦ inr (List.◌∷◌ x pre, ap (List.◌∷◌ x) e)
  | inl down ↦ elim (Bool-cases (x == "..")) [
    | inl up ↦ inr (List.[], cc (no_ups-nil st (h.1 up) down, (eq_iff x "..").0 up))
    | inr other ↦ inl (other, down)
  ]
]

-- Where the first element is not "..", none is.
bottom :
    (st : List String)
    → IsStack st
    → All IsDown (reverse st) ⊎ ((pre : List String) × (reverse st ≡ List.◌∷◌ ".." pre))
bottom st h = elim (bottom_of st h) [
  | inl down ↦ inl (All-reverse_aux IsDown st List.[] down tt)
  | inr (pre, e) ↦ inr (reverse pre, ap reverse e ∙ reverse-append pre (List.◌∷◌ ".." List.[]))
]

IsElement-of_stack : (st : List String) → IsStack st → All IsElement st
IsElement-of_stack List.[] h = tt
IsElement-of_stack (List.◌∷◌ x st) h = (h.0, IsElement-of_stack st h.2)

-- What an element of an accepted path is not.
pub record IsPlain (x : String) : Type 0 where
  pub not_empty : x ≢ ""
  pub not_dot : x ≢ "."
  pub not_up : x ≢ ".."

Lacks-of_elements : (xs : List String) → All IsElement xs → All (Lacks b'/') xs
Lacks-of_elements List.[] h = tt
Lacks-of_elements (List.◌∷◌ x xs) h = (h.0.2, Lacks-of_elements xs h.1)

has_prefix_up : (r : String) → has_prefix (String.◌++◌ ".." (String.◌++◌ "/" r)) "../" ≡ true
unfolding has_prefix
has_prefix_up r =
    rw (slash-append, cons-append "." "." ("/" ∷ r), cons-append "." [] ("/" ∷ r), nil-append)

IsPlain-of_parts : (xs : List String) → All IsElement xs → All IsDown xs → All IsPlain xs
IsPlain-of_parts List.[] e d = tt
IsPlain-of_parts (List.◌∷◌ x xs) e d = (
  record {
    not_empty = λ p. cc (e.0.0, ap is_empty p);
    not_dot = λ p. cc (e.0.1, (eq_iff x ".").1 p);
    not_up = λ p. cc (d.0, (eq_iff x "..").1 p);
  },
  IsPlain-of_parts xs e.1 d.1,
)

-- the elements of a relative path that path.Clean leaves alone
module _ (v : String) (relative : has_prefix v "/" ≡ false) (same : clean v ≡ v)
    (not_here : v ≢ ".") (not_up : v ≢ "..") (not_above : has_prefix v "../" ≡ false) where
  stack : List String
  stack = resolve_all false List.[] (split b'/' v)

  stack-IsStack : IsStack stack
  unfolding stack
  stack-IsStack = resolve_all-IsStack (split b'/' v) List.[] (Lacks-split b'/' v) tt

  body : String
  body = join (reverse stack) "/"

  clean-eq : clean v ≡ (if is_empty body then "." else body)
  unfolding clean body stack
  clean-eq = rw relative

  eq-body : (v ≡ body) × (is_empty body ≡ false)
  eq-body = elim (Bool-cases (is_empty body)) [
    | inl bare ↦ absurd (not_here (cc (same, rw bare at clean-eq)))
    | inr full ↦ (cc (same, rw full at clean-eq), full)
  ]

  eq-join : {xs : List String} → reverse stack ≡ xs → v ≡ join xs "/"
  unfolding body
  eq-join e = eq-body.0 ∙ ap (λ l. join l "/") e

  split-eq : (xs : List String) → reverse stack ≡ xs → All IsElement xs → split b'/' v ≡ xs
  unfolding join
  split-eq List.[] e h = absurd (cc (rw (← eq-body.0) at eq-body.1, eq-join e))
  split-eq (List.◌∷◌ x xs) e h =
      ap (split b'/') (eq-join e) ∙ split-join x xs (Lacks-of_elements (List.◌∷◌ x xs) h)

  IsDown-stack : All IsDown (reverse stack)
  unfolding join
  IsDown-stack = elim (bottom stack stack-IsStack) [
    | inl down ↦ down
    | inr (List.[], e) ↦ absurd (not_up (eq-join e ∙ text_append-nil ".."))
    | inr (List.◌∷◌ y ys, e) ↦ absurd (
        cc (
          not_above,
          ap (λ s. has_prefix s "../") (eq-join e),
          has_prefix_up (join (List.◌∷◌ y ys) "/"),
        ))
  ]

  -- Its elements name files and folders: none is empty, "." or "..".
  pub IsPlain-split : All IsPlain (split b'/' v)
  IsPlain-split =
      let elements =
        All-reverse_aux IsElement stack List.[] (IsElement-of_stack stack stack-IsStack) tt in
      rw (split-eq (reverse stack) refl elements)
        (IsPlain-of_parts (reverse stack) elements IsDown-stack)
