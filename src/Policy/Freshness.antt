-- ===== src/Policy/Freshness.antt =====
-- `validateFreshness` against what a fresh decision is.
use bootup.Common.{
  Bool-cases, Option, arith, false, inl, inr, is_none, is_positive, none, ok, pos_part, refl, some,
  true, ℕ, ℤ, ◌+◌, ◌<◌, ◌↔◌, ◌≡◌, ◌≤◌,
}
use bootup.Policy.{
  Decision, LoadOptions, has_expired, max_duration, validate_age, validate_freshness,
}

-- A decision is fresh at a time: the time is before its expiry time; it bounds its own life by an expiry time, or
-- the operator bounds its age; and under an age limit it was published, not in the future, and
-- not longer ago than the limit.
pub record IsFresh (decision : Decision) (now : ℕ) (max_age : ℤ) : Type 0 where
  pub alive : (expiry : ℕ) → decision.expires_at ≡ some expiry → now < expiry
  pub bounded : is_positive max_age ≡ false → (expiry : ℕ) × (decision.expires_at ≡ some expiry)
  pub young :
      is_positive max_age ≡ true
      → (published : ℕ) × (decision.published_at ≡ some published)
        × (published ≤ now)
        × (now ≤ published + pos_part max_age)

-- the test of the expiry time, and the order of the times
has_expired-false :
    (expires : Option ℕ) (now expiry : ℕ)
    → expires ≡ some expiry
    → has_expired expires now ≡ false
    → now < expiry
has_expired-false none now expiry same h = cc
has_expired-false (some t) now expiry same h =
    let eq : t ≡ expiry = cc in rw (← eq) (ground (arith, h))

has_expired-before :
    (expires : Option ℕ) (now : ℕ)
    → ((expiry : ℕ) → expires ≡ some expiry → now < expiry)
    → has_expired expires now ≡ false
has_expired-before none now h = refl
has_expired-before (some t) now h = let before = h t refl in ground (arith, before)

is_none-some : (expires : Option ℕ) → is_none expires ≡ false → (t : ℕ) × (expires ≡ some t)
is_none-some none h = cc
is_none-some (some t) h = (t, refl)

module _ (decision : Decision) (options : LoadOptions)
    (representable : pos_part options.max_age < max_duration) where
  age_sound :
      (published : Option ℕ)
      → validate_age published options.now (pos_part options.max_age) ≡ ok tt
      → (p : ℕ) × (published ≡ some p)
        × (p ≤ options.now)
        × (options.now ≤ p + pos_part options.max_age)
  unfolding validate_age
  age_sound none h = cc
  age_sound (some p) h = (p, refl, ground arith, ground arith)

  age_complete :
      (p : ℕ)
      → p ≤ options.now
      → options.now ≤ p + pos_part options.max_age
      → validate_age (some p) options.now (pos_part options.max_age) ≡ ok tt
  unfolding validate_age
  age_complete p h k = ground arith

  IsFresh-sound :
      validate_freshness decision options ≡ ok tt → IsFresh decision options.now options.max_age
  unfolding validate_freshness
  IsFresh-sound h = record {
    alive = λ expiry given.
        has_expired-false decision.expires_at options.now expiry given (ground arith);
    bounded = λ unlimited. is_none-some decision.expires_at (ground (arith, unlimited));
    young = λ limited. age_sound decision.published_at (ground arith);
  }

  IsFresh-complete :
      IsFresh decision options.now options.max_age → validate_freshness decision options ≡ ok tt
  unfolding validate_freshness
  IsFresh-complete f = elim (Bool-cases (is_positive options.max_age)) [
    | inl limited ↦
        let (p, published, past, recent) = f.young limited in
        let alive = has_expired-before decision.expires_at options.now f.alive in
        ground (arith, limited, published, alive, age_complete p past recent)
    | inr unlimited ↦
        let alive = has_expired-before decision.expires_at options.now f.alive in
        let (expiry, given) = f.bounded unlimited in ground (arith, unlimited, alive, given)
  ]

  -- Under an age limit below the longest duration, a decision is accepted as fresh exactly if the
  -- time is before its expiry time, where it has one; it has one, or there is an age limit; and
  -- under an age limit it was published, not in the future and not longer ago than the limit.
  pub validate_freshness_iff :
      (validate_freshness decision options ≡ ok tt) ↔ IsFresh decision options.now options.max_age
  validate_freshness_iff = (IsFresh-sound, IsFresh-complete)
