-- ===== src/Providers/Discovery.antt =====
-- What the Debian and the Fedora provider share where they discover targets: the index of releases,
-- and the loop over the releases.
use bootup.Provider.{LifecycleEntry, Target}
use bootup.Http.{HttpError, is_context_error, path_base}
use bootup.Providers.{ProviderError, of_http}
use bootup.Common.{
  >>=-eq-ok, All, Bool, Bool-cases, List, Result, Result-cases, String, [], arith, contains, err,
  false, if◌then◌else◌, inl, inr, lookup, none, not, ok, some, true, ◌&&◌, ◌>>=◌, ◌∷◌, ◌≡◌,
}
use bootup.Text.{trim_suffix}

-- the names in an index that are releases, each once
unfoldable pub collect_releases : (String → Bool) → List String → List String → List String
unfolding trim_suffix path_base
collect_releases is_release seen [] = seen
collect_releases is_release seen (href ∷ hrefs) =
    let release = path_base (trim_suffix href "/") in
    let skip = collect_releases is_release seen hrefs in
    let take = collect_releases is_release (release ∷ seen) hrefs in
    if is_release release && not (contains release seen) then take else skip

-- `lifecycleEntry`
unfoldable pub lifecycle_entry : String → List (String × LifecycleEntry) → String → LifecycleEntry
lifecycle_entry provider_id lifecycle release = elim (lookup release lifecycle) [
  | some entry ↦ entry
  | none ↦ record { status = "unknown"; origin = provider_id; date = "" }
]

module _ (check : String → Result HttpError Bool) (target : String → Target) where
  -- the loop of `DiscoverTargets`; only the error of a context that has ended stops it
  unfoldable pub discover_each : List String → Result ProviderError (List Target)
  unfolding is_context_error
  discover_each [] = ok []
  discover_each (release ∷ releases) =
      let rest = discover_each releases in
      elim (check release) [
        | err e ↦ if is_context_error e then err (of_http e) else rest
        | ok false ↦ rest
        | ok true ↦ do targets ← rest; ok (target release ∷ targets)
      ]

  -- The check of a release did not end with its context.
  pub IsAnswered : String → Type 0
  IsAnswered release = (e : HttpError) → check release ≡ err e → is_context_error e ≡ false

  is_available : Result HttpError Bool → Bool
  is_available (ok there) = there
  is_available (err e) = false

  -- the targets of the releases that are there
  pub available_targets : List String → List Target
  available_targets [] = []
  available_targets (release ∷ releases) =
      if is_available (check release)
      then target release ∷ available_targets releases
      else available_targets releases

  pub discover_each_sound :
      (releases : List String) (targets : List Target)
      → discover_each releases ≡ ok targets
      → All IsAnswered releases × (targets ≡ available_targets releases)
  unfolding discover_each available_targets is_available IsAnswered
  discover_each_sound [] targets h = (tt, cc)
  discover_each_sound (release ∷ releases) targets h = elim (Result-cases (check release)) [
    | inr (e, broken) ↦ elim (Bool-cases (is_context_error e)) [
      | inl ended ↦ absurd (ground (arith, broken, ended))
      | inr goes_on ↦
          let (rest, same) =
            discover_each_sound releases targets (rw (discover_each, broken, goes_on) at h) in
          ((λ e' also. let eq : e ≡ e' = cc in rw (← eq) goes_on, rest), rw broken same)
    ]
    | inl (true, answered) ↦
        let (others, listed, same) =
          >>=-eq-ok (discover_each releases) (λ targets. ok (target release ∷ targets))
            (rw (discover_each, answered) at h) in
        let (rest, tail) = discover_each_sound releases others listed in
        (((λ e also. cc), rest), rw answered (rw (← tail) cc))
    | inl (false, answered) ↦
        let (rest, same) =
          discover_each_sound releases targets (rw (discover_each, answered) at h) in
        (((λ e also. cc), rest), rw answered same)
  ]
