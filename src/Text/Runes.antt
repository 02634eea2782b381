-- ===== src/Text/Runes.antt =====
-- Text as a sequence of runes: `unicode.IsSpace`, `unicode.IsControl`, and texts all of whose
-- runes satisfy a predicate.
use Prim.Native.String.{[], ◌∷◌}
use bootup.Common.{ℕ, String, code, Bool, false, true, ◌&&◌, ◌||◌, ◌≡◌, ltb, leb, eqb, arith}

-- unicode.IsSpace: the white space of Latin-1, then that of the category Z and the line marks.
unfoldable pub is_space : ℕ → Bool
is_space c =
    (leb 9 c && leb c 13)
    || eqb c 32
    || eqb c 0x85
    || eqb c 0xA0
    || eqb c 0x1680
    || (leb 0x2000 c && leb c 0x200A)
    || eqb c 0x2028
    || eqb c 0x2029
    || eqb c 0x202F
    || eqb c 0x205F
    || eqb c 0x3000

-- unicode.IsControl: the category Cc.
unfoldable pub is_control : ℕ → Bool
is_control c = ltb c 32 || (leb 0x7F c && leb c 0x9F)

-- `s == ""`
abbrev pub is_empty : String → Bool
is_empty [] = true
is_empty (c ∷ s) = false

-- strings.ContainsFunc
abbrev pub contains_func : (ℕ → Bool) → String → Bool
contains_func p [] = false
contains_func p (c ∷ s) = p (code c) || contains_func p s

-- Every rune of a text satisfies the predicate.
abbrev pub Every : (ℕ → Type 0) → String → Type 0
Every P [] = Unit
Every P (c ∷ s) = P (code c) × Every P s

pub Every-of_contains_func :
    (p : ℕ → Bool) (s : String) → contains_func p s ≡ false → Every (λ c. p c ≡ false) s
Every-of_contains_func p [] h = tt
Every-of_contains_func p (c ∷ s) h = (ground arith, Every-of_contains_func p s (ground arith))
