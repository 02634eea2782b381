-- ===== src/Http/Laws.antt =====
-- `Probe`: which statuses it takes for presence, for absence and for an error.
use bootup.Http.{Http, is_there, probe, status, status_not_allowed, status_not_found, status_ok}
use bootup.Common.{
  >>=-eq-ok, Bool, Bool-cases, String, ap, arith, eqb, eqb→eq, false, if-false, if-true, inl, inr,
  ok, refl, true, ℕ, ◌↔◌, ◌∙◌, ◌≡◌,
}

module _ (http : Http) where
  -- The status that counts: that of HEAD, or that of GET where HEAD is not allowed.
  pub data Counts (url : String) (answer : ℕ) : Type 0 where
    by_head :
        status http "HEAD" url ≡ ok answer
        → eqb answer status_not_allowed ≡ false
        → Counts url answer
    by_get :
        status http "HEAD" url ≡ ok status_not_allowed
        → status http "GET" url ≡ ok answer
        → Counts url answer

  -- what a status says
  pub IsVerdict : ℕ → Bool → Type 0
  IsVerdict answer true = answer ≡ status_ok
  IsVerdict answer false = answer ≡ status_not_found

  is_there-IsVerdict :
      (answer : ℕ) (there : Bool) → (is_there http answer ≡ ok there) ↔ IsVerdict answer there
  unfolding is_there IsVerdict
  is_there-IsVerdict answer true = (λ h. ground arith, λ h. rw h refl)
  is_there-IsVerdict answer false = (λ h. ground arith, λ h. rw h refl)

  probe_sound :
      (url : String) (there : Bool)
      → probe http url ≡ ok there
      → (answer : ℕ) × Counts url answer × IsVerdict answer there
  unfolding probe
  probe_sound url there h =
      let (head, asked, h1) = >>=-eq-ok (status http "HEAD" url) _ h in
      elim (Bool-cases (eqb head status_not_allowed)) [
        | inr allowed ↦ (
          head,
          by_head asked allowed,
          (is_there-IsVerdict head there).0 (if-false (eqb head status_not_allowed) _ _ allowed h1),
        )
        | inl refused ↦
            let (get, asked_again, h2) =
              >>=-eq-ok (status http "GET" url) _
                (if-true (eqb head status_not_allowed) _ _ refused h1) in
            let same : head ≡ status_not_allowed = eqb→eq _ _ refused in
            (get, by_get (asked ∙ ap ok same) asked_again, (is_there-IsVerdict get there).0 h2)
      ]

  probe_complete :
      (url : String) (there : Bool) (answer : ℕ)
      → Counts url answer
      → IsVerdict answer there
      → probe http url ≡ ok there
  unfolding probe
  probe_complete url there answer (by_head asked allowed) h =
      rw (probe, asked, allowed) ((is_there-IsVerdict answer there).1 h)
  probe_complete url there answer (by_get asked again) h =
      rw (probe, asked, again) ((is_there-IsVerdict answer there).1 h)

  -- A probe says that a URL is there exactly if the status that counts is 200, and that it is not
  -- exactly if it is 404, so that it is an error for every other status; the status that counts is
  -- that of HEAD, or that of GET where that of HEAD is 405.
  pub probe_iff :
      (url : String) (there : Bool)
      → (probe http url ≡ ok there) ↔ ((answer : ℕ) × Counts url answer × IsVerdict answer there)
  probe_iff url there = (
    probe_sound url there,
    λ (answer, counts, verdict). probe_complete url there answer counts verdict,
  )
