-- ===== src/Common/Lists.antt =====
-- Predicates on lists, and sets and maps with text keys as lists.
use Prim.Native.Nat.{ℕ, suc}
use Prim.Native.String.{String}
use mathlib.Core.Logic.{◌↔◌}
use mathlib.Core.Path.{◌≡◌, refl}
use mathlib.Core.Bool.{Bool, true, false, ◌||◌}
use mathlib.Core.Option.{Option, none, some}
use mathlib.Core.List.{List, [], ◌∷◌, ◌++◌, reverse_aux}
use native.Mathlib.Omega.{arith}
use text.Mathlib.Text.{◌==◌}
use text.Mathlib.TextEquality.{eq_iff}
use mathlib.Core.Logic.{inl, inr}
use bootup.Common.Tests.{Bool-cases, if◌then◌else◌}

module _ {ℓ} {A : Type ℓ} where
  abbrev pub length : List A → ℕ
  length [] = 0
  length (x ∷ xs) = suc (length xs)

  abbrev pub is_nil : List A → Bool
  is_nil [] = true
  is_nil (x ∷ xs) = false

  abbrev pub is_none : Option A → Bool
  is_none none = true
  is_none (some a) = false

module _ {ℓ κ} {A : Type ℓ} (P : A → Type κ) where
  abbrev pub All : List A → Type κ
  All [] = Unit
  All (x ∷ xs) = P x × All xs

  pub All-append : (xs ys : List A) → All xs → All ys → All (xs ++ ys)
  All-append [] ys _ k = k
  All-append (x ∷ xs) ys (p, h) k = (p, All-append xs ys h k)

  pub All-reverse_aux : (xs ys : List A) → All xs → All ys → All (reverse_aux xs ys)
  All-reverse_aux [] ys _ k = k
  All-reverse_aux (x ∷ xs) ys (p, h) k = All-reverse_aux xs (x ∷ ys) h (p, k)

-- Membership in a set of texts.
abbrev pub contains : String → List String → Bool
contains k [] = false
contains k (x ∷ xs) = x == k || contains k xs

-- No text stands twice.
abbrev pub Distinct : List String → Type 0
Distinct [] = Unit
Distinct (x ∷ xs) = (contains x xs ≡ false) × Distinct xs

-- What a loop over a set `seen` sees where it refuses what it has seen.
abbrev pub Fresh : List String → List String → Type 0
Fresh seen [] = Unit
Fresh seen (x ∷ xs) = (contains x seen ≡ false) × Fresh (x ∷ seen) xs

pub Fresh-lacks :
    (k : String) (seen xs : List String)
    → Fresh seen xs
    → contains k seen ≡ true
    → contains k xs ≡ false
Fresh-lacks k seen [] h m = refl
Fresh-lacks k seen (x ∷ xs) h m = ground (arith, eq_iff x k, Fresh-lacks k (x ∷ seen) xs h.1)

pub Fresh-Distinct : (seen xs : List String) → Fresh seen xs → Distinct xs
Fresh-Distinct seen [] h = tt
Fresh-Distinct seen (x ∷ xs) h =
    (Fresh-lacks x (x ∷ seen) xs h.1 (ground (arith, eq_iff x x)), Fresh-Distinct (x ∷ seen) xs h.1)

Distinct-Fresh-All :
    (seen xs : List String) → Distinct xs → All (λ x. contains x seen ≡ false) xs → Fresh seen xs
Distinct-Fresh-All seen [] d h = tt
Distinct-Fresh-All seen (x ∷ xs) d h =
    (h.0, Distinct-Fresh-All (x ∷ seen) xs d.1 (unseen xs d.0 h.1))
  where
    unseen :
        (ys : List String)
        → contains x ys ≡ false
        → All (λ y. contains y seen ≡ false) ys
        → All (λ y. contains y (x ∷ seen) ≡ false) ys
    unseen [] e h = tt
    unseen (y ∷ ys) e h = (ground (arith, eq_iff x y, eq_iff y x), unseen ys (ground arith) h.1)

none_seen : (xs : List String) → All (λ x. contains x [] ≡ false) xs
none_seen [] = tt
none_seen (x ∷ xs) = (refl, none_seen xs)

pub Distinct-Fresh : (xs : List String) → Distinct xs → Fresh [] xs
Distinct-Fresh xs d = Distinct-Fresh-All [] xs d (none_seen xs)

-- The set behind a loop over `xs`.
abbrev pub push_all : List String → List String → List String
push_all [] seen = seen
push_all (x ∷ xs) seen = push_all xs (x ∷ seen)

pub Fresh-append :
    (seen xs ys : List String)
    → Fresh seen (xs ++ ys) ↔ (Fresh seen xs × Fresh (push_all xs seen) ys)
Fresh-append seen [] ys = (λ h. (tt, h), λ h. h.1)
Fresh-append seen (x ∷ xs) ys =
    let (to, from) = Fresh-append (x ∷ seen) xs ys in
    (λ h. let (a, b) = to h.1 in ((h.0, a), b), λ h. (h.0.0, from (h.0.1, h.1)))

pub contains-append :
    (k : String) (xs ys : List String) → contains k (xs ++ ys) ≡ (contains k xs || contains k ys)
contains-append k [] ys = refl
contains-append k (x ∷ xs) ys = ground (arith, contains-append k xs ys)

-- A map with text keys: the first entry of a key counts.
module _ {ℓ} {V : Type ℓ} where
  abbrev pub lookup : String → List (String × V) → Option V
  lookup k [] = none
  lookup k ((j, v) ∷ m) = if j == k then some v else lookup k m

  abbrev pub delete : String → List (String × V) → List (String × V)
  delete k [] = []
  delete k ((j, v) ∷ m) = let rest = delete k m in if j == k then rest else (j, v) ∷ rest

  abbrev pub keys : List (String × V) → List String
  keys [] = []
  keys ((j, v) ∷ m) = j ∷ keys m

  pub lookup-delete :
      (k j : String) (m : List (String × V))
      → lookup j (delete k m) ≡ (if k == j then none else lookup j m)
  lookup-delete k j [] = ground arith
  lookup-delete k j ((i, v) ∷ m) =
      ground (arith, lookup-delete k j m, eq_iff i k, eq_iff i j, eq_iff k j)

module _ {V : Type 0} (P : String → V → Type 0) where
  -- what every entry of a map satisfies
  abbrev pub AllEntries : List (String × V) → Type 0
  AllEntries [] = Unit
  AllEntries ((k, v) ∷ m) = P k v × AllEntries m

  pub lookup-AllEntries :
      (k : String) (m : List (String × V)) (v : V) → AllEntries m → lookup k m ≡ some v → P k v
  lookup-AllEntries k [] v h found = cc
  lookup-AllEntries k ((j, u) ∷ m) v h found = elim (Bool-cases (j == k)) [
    | inl here ↦
        let key : j ≡ k = (eq_iff j k).0 here in
        let value : u ≡ v = ground (arith, here) in rw (← key, ← value) h.0
    | inr later ↦ lookup-AllEntries k m v h.1 (ground (arith, later))
  ]

-- a key of a map has a value
pub lookup-some :
    {V : Type 0} (k : String) (m : List (String × V))
    → contains k (keys m) ≡ true
    → (v : V) × (lookup k m ≡ some v)
lookup-some k [] h = cc
lookup-some k ((j, u) ∷ m) h = elim (Bool-cases (j == k)) [
  | inl here ↦ (u, rw here)
  | inr later ↦ let (v, found) = lookup-some k m (ground (arith, later)) in (v, rw later found)
]

-- a value has a key of the map
pub contains-keys :
    {V : Type 0} (k : String) (m : List (String × V)) {v : V}
    → lookup k m ≡ some v
    → contains k (keys m) ≡ true
contains-keys k [] h = cc
contains-keys k ((j, u) ∷ m) h = elim (Bool-cases (j == k)) [
  | inl here ↦ rw here
  | inr later ↦ rw later (contains-keys k m (rw later at h))
]

pub lookup-none :
    {V : Type 0} (k : String) (m : List (String × V))
    → contains k (keys m) ≡ false
    → lookup k m ≡ none
lookup-none k [] h = refl
lookup-none k ((j, u) ∷ m) h = ground (arith, lookup-none k m)
