-- ===== src/Provider/Registry/Planning.antt =====
-- `Plan` and `Stage`: what a provider is asked for, and what comes back.
use bootup.Provider.{
  BootPlan, Error, PlanInput, SecretRef, at, invalid_secret_input, invalid_target_option,
}
use bootup.Provider.Options.{validate_target_options}
use bootup.Provider.Options.Laws.{IsFragment}
use bootup.Provider.Fragments.{selected_option_fragments, validate_selected_options}
use bootup.Provider.Fragments.Printable.{selected_option_fragments-IsFragment}
use bootup.Provider.SecretRefs.{resolve_secret_refs}
use bootup.Provider.SecretRefs.Laws.{AreResolved, resolve_secret_refs-AreResolved}
use bootup.Provider.Registry.{Provider, Registry, StageConfig, plan, stage, stage_refs, with_refs}
use bootup.Common.{
  >>-eq-ok, >>=-eq-ok, All, List, Option-cases, Result, String, arith, inl, inr, lookup, ok, some,
  wrap, wrap-eq-ok, ◌≡◌,
}

-- What is known of a plan: the selected options give fragments of the target's options that can
-- stand in a command line, the references are resolved, and the target's own provider has made
-- the plan with them.
pub record IsPlanned (r : Registry) (input : PlanInput) (result : BootPlan) : Type 0 where
  pub provider : Provider
  pub registered : lookup input.target.provider_id r.providers ≡ some provider
  pub fragments : List String
  pub selected : selected_option_fragments input.target.options input.options ≡ ok fragments
  pub printable : All IsFragment fragments
  pub refs : List SecretRef
  pub resolved : AreResolved input.target.secrets input.secrets refs
  pub made : BootPlan
  pub asked : provider.plan (record input { secret_refs = refs }) ≡ ok made
  pub whole : result ≡ with_refs refs made

module _ (r : Registry) (input : PlanInput) (result : BootPlan) where
  selected_fragments :
      wrap invalid_target_option (validate_selected_options input.target input.options) ≡ ok tt
      → (fragments : List String) × (selected_option_fragments input.target.options input.options
          ≡ ok fragments)
  unfolding validate_selected_options
  selected_fragments h =
      let (fragments, selected, _) =
        >>=-eq-ok (selected_option_fragments input.target.options input.options) _ (
          wrap-eq-ok invalid_target_option (validate_selected_options input.target input.options)
            h) in
      (fragments, selected)

  -- A plan for a target with accepted options was made by the registered provider of the target,
  -- with selected options whose fragments can stand in a command line and with references that are
  -- resolved; they replace the references of the provider's plan, unless there are none.
  pub plan-IsPlanned :
      validate_target_options input.target.options ≡ ok tt
      → plan r input ≡ ok result
      → IsPlanned r input result
  unfolding plan
  plan-IsPlanned accepted h =
      let target = input.target in
      let (_, checked, h1) =
        >>-eq-ok (wrap invalid_target_option (validate_selected_options target input.options)) _
          h in
      let (refs, resolved, h2) =
        >>=-eq-ok
          (wrap invalid_secret_input
            (resolve_secret_refs target.secrets input.secret_refs input.secrets))
          _ h1 in
      let (fragments, selected) = selected_fragments checked in
      elim (Option-cases (lookup target.provider_id r.providers)) [
        | inl missing ↦ absurd (ground (arith, missing))
        | inr (provider, found) ↦
            let (made, asked, same) =
              >>=-eq-ok (wrap (at target.id) (provider.plan (record input { secret_refs = refs })))
                _ (rw found at h2) in
            record {
              provider = provider;
              registered = found;
              fragments = fragments;
              selected = selected;
              printable =
                  selected_option_fragments-IsFragment target.options input.options fragments
                    accepted selected;
              refs = refs;
              resolved =
                  resolve_secret_refs-AreResolved target.secrets input.secrets input.secret_refs
                    refs (wrap-eq-ok invalid_secret_input _ resolved);
              made = made;
              asked = wrap-eq-ok (at target.id) _ asked;
              whole = cc same;
            }
      ]

-- What is known of a staged plan: the target's own provider stages, and was asked with references
-- that are resolved.
pub record IsStaged (r : Registry) (config : StageConfig) (result : BootPlan) : Type 0 where
  pub provider : Provider
  pub registered : lookup config.plan.target.provider_id r.providers ≡ some provider
  pub stager : StageConfig → Result Error BootPlan
  pub stages : provider.stager ≡ some stager
  pub refs : List SecretRef
  pub resolved : AreResolved config.plan.target.secrets config.secrets refs
  pub asked : stager (record config { secret_refs = refs }) ≡ ok result

-- A plan that is staged was staged by the registered provider of its target, with references that
-- are resolved against the store of the request.
pub stage-IsStaged :
    (r : Registry) (config : StageConfig) (result : BootPlan)
    → stage r config ≡ ok result
    → IsStaged r config result
unfolding stage
stage-IsStaged r config result h =
    let target = config.plan.target in
    let chosen = stage_refs config.secret_refs config.plan.secret_refs in
    let (refs, resolved, h1) =
      >>=-eq-ok
        (wrap invalid_secret_input (resolve_secret_refs target.secrets chosen config.secrets)) _
        h in
    elim (Option-cases (lookup target.provider_id r.providers)) [
      | inl missing ↦ absurd (ground (arith, missing))
      | inr (provider, found) ↦ elim (Option-cases provider.stager) [
        | inl no_stager ↦ absurd (ground (arith, found, no_stager))
        | inr (stager, stages) ↦ record {
          provider = provider;
          registered = found;
          stager = stager;
          stages = stages;
          refs = refs;
          resolved =
              resolve_secret_refs-AreResolved target.secrets config.secrets chosen refs
                (wrap-eq-ok invalid_secret_input _ resolved);
          asked = wrap-eq-ok (at target.id) _ (rw (found, stages) at h1);
        }
      ]
    ]
