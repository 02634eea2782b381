-- ===== src/Text/Trim.antt =====
-- strings.TrimSpace, and texts that it leaves blank.
use Prim.Native.String.{[], ◌∷◌}
use bootup.Common.{
  Bool, Bool-cases, Char, String, [], arith, code, if◌then◌else◌, inl, inr, not, refl, ℕ, ◌&&◌,
  ◌==◌, ◌||◌, ◌∷◌, ◌≡◌,
}
use bootup.Text.Runes.{Every, contains_func, is_empty, is_space}

pub trim_left : String → String
trim_left [] = []
trim_left (c ∷ s) = if is_space (code c) then trim_left s else c ∷ s

-- a white rune is dropped where nothing is left behind it
keep_rune : Char → String → String
keep_rune c [] = if is_space (code c) then [] else c ∷ []
keep_rune c (d ∷ s) = c ∷ d ∷ s

pub trim_right : String → String
trim_right [] = []
trim_right (c ∷ s) = keep_rune c (trim_right s)

-- strings.TrimSpace
unfoldable pub trim_space : String → String
unfolding trim_left trim_right keep_rune is_space
trim_space s = trim_right (trim_left s)

abbrev pub is_blank : String → Bool
is_blank s = is_empty (trim_space s)

-- `if strings.TrimSpace(s) != s`
abbrev pub has_margin : String → Bool
has_margin s = not (trim_space s == s)

-- The text has a rune that is no white space.
abbrev pub has_ink : String → Bool
has_ink s = contains_func (λ c. not (is_space c)) s

module _ (P : ℕ → Type 0) where
  Every-trim_left : (s : String) → Every P s → Every P (trim_left s)
  unfolding trim_left
  Every-trim_left [] h = tt
  Every-trim_left (c ∷ s) h = ground (arith, Every-trim_left s h.1)

  Every-keep_rune : (c : Char) (s : String) → P (code c) → Every P s → Every P (keep_rune c s)
  unfolding keep_rune
  Every-keep_rune c [] p h = elim (Bool-cases (is_space (code c))) [
    | inl white ↦ rw white tt
    | inr ink ↦ rw ink (p, tt)
  ]
  Every-keep_rune c (d ∷ s) p h = (p, h)

  Every-trim_right : (s : String) → Every P s → Every P (trim_right s)
  unfolding trim_right
  Every-trim_right [] h = tt
  Every-trim_right (c ∷ s) h = Every-keep_rune c (trim_right s) h.0 (Every-trim_right s h.1)

  -- Trimming adds no rune.
  pub Every-trim_space : (s : String) → Every P s → Every P (trim_space s)
  unfolding trim_space
  Every-trim_space s h = Every-trim_right (trim_left s) (Every-trim_left s h)

has_ink-trim_left : (s : String) → has_ink (trim_left s) ≡ has_ink s
unfolding trim_left
has_ink-trim_left [] = refl
has_ink-trim_left (c ∷ s) = ground (arith, has_ink-trim_left s)

has_ink-keep_rune :
    (c : Char) (s : String) → has_ink (keep_rune c s) ≡ (not (is_space (code c)) || has_ink s)
unfolding keep_rune
has_ink-keep_rune c [] = elim (Bool-cases (is_space (code c))) [
  | inl white ↦ rw white
  | inr ink ↦ rw ink (rw ink)
]
has_ink-keep_rune c (d ∷ s) = refl

has_ink-trim_right : (s : String) → has_ink (trim_right s) ≡ has_ink s
unfolding trim_right
has_ink-trim_right [] = refl
has_ink-trim_right (c ∷ s) =
    ground (arith, has_ink-keep_rune c (trim_right s), has_ink-trim_right s)

pub has_ink-trim_space : (s : String) → has_ink (trim_space s) ≡ has_ink s
unfolding trim_space
has_ink-trim_space s = ground (arith, has_ink-trim_right (trim_left s), has_ink-trim_left s)

-- Trimming leaves nothing exactly of the texts without ink.
is_empty-keep_rune :
    (c : Char) (s : String) → is_empty (keep_rune c s) ≡ (is_space (code c) && is_empty s)
unfolding keep_rune
is_empty-keep_rune c [] = elim (Bool-cases (is_space (code c))) [
  | inl white ↦ rw white
  | inr ink ↦ rw ink
]
is_empty-keep_rune c (d ∷ s) = ground arith

is_empty-trim_right : (s : String) → is_empty (trim_right s) ≡ not (has_ink s)
unfolding trim_right
is_empty-trim_right [] = refl
is_empty-trim_right (c ∷ s) =
    ground (arith, is_empty-keep_rune c (trim_right s), is_empty-trim_right s)

pub is_blank-has_ink : (s : String) → is_blank s ≡ not (has_ink s)
unfolding trim_space
is_blank-has_ink s = ground (arith, is_empty-trim_right (trim_left s), has_ink-trim_left s)
