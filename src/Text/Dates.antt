-- ===== src/Text/Dates.antt =====
-- time.Parse with the layout time.DateOnly, "2006-01-02": whether a text is a date.
use Prim.Native.Nat.{◌%◌}
use Prim.Native.String.{[], ◌∷◌}
use bootup.Common.{
  Bool, Option, String, [], code, eqb, false, if◌then◌else◌, leb, ltb, none, not, some, suc, zero,
  ℕ, ◌&&◌, ◌*◌, ◌+◌, ◌-◌, ◌||◌, ◌∷◌,
}
use bootup.Text.Runes.{is_empty}

-- so many digits: their value behind `n`, and the rest of the text
unfoldable pub digits : ℕ → ℕ → String → Option (ℕ × String)
digits zero n s = some (n, s)
digits (suc k) n [] = none
digits (suc k) n (c ∷ s) =
    let rest = digits k (n * 10 + (code c - 48)) s in
    if leb b'0' (code c) && leb (code c) b'9' then rest else none

-- a "-" in front
unfoldable pub dash : String → Option String
dash [] = none
dash (c ∷ s) = if eqb (code c) b'-' then some s else none

is_leap : ℕ → Bool
is_leap year = eqb (year % 4) 0 && (not (eqb (year % 100) 0) || eqb (year % 400) 0)

-- daysIn
unfoldable pub days_in : ℕ → ℕ → ℕ
unfolding is_leap
days_in month year =
    if eqb month 2
    then if is_leap year then 29 else 28
    else if eqb month 4 || eqb month 6 || eqb month 9 || eqb month 11
    then 30
    else 31

infixl 5 ◌>>=◌
abbrev ◌>>=◌ : {A B : Type 0} → Option A → (A → Option B) → Option B
none >>= f = none
some a >>= f = f a

-- year, month and day, before the check of the day
unfoldable pub read_date : String → Option (ℕ × ℕ × ℕ)
unfolding digits dash
read_date s = do
  (year, after_year) ← digits 4 0 s
  month_text ← dash after_year
  (month, after_month) ← digits 2 0 month_text
  day_text ← dash after_month
  (day, rest) ← digits 2 0 day_text
  if eqb month 0 || ltb 12 month || not (is_empty rest) then none else some (year, month, day)

unfoldable pub is_date : String → Bool
unfolding read_date days_in
is_date s = elim (read_date s) [
  | none ↦ false
  | some (year, month, day) ↦ leb 1 day && leb day (days_in month year)
]
