-- ===== src/Provider/Registry.antt =====
-- The registry of providers. A provider is what its methods return when they are called; a nil
-- interface, or one that the provider does not implement, is `none`.
mod Examples
pub mod Laws
pub mod Order
pub mod Planning
pub mod Discovery
use bootup.Common.{
  List, Option, Result, String, [], contains, err, if◌then◌else◌, keys, lookup, none, not, ok,
  refuse_if, some, wrap, ◌++◌, ◌==◌, ◌>>=◌, ◌>>◌, ◌∷◌,
}
use bootup.Text.{is_blank, sort_texts}
use bootup.Provider.{
  BootPlan, Error, FamilyProblem, PlanInput, SecretRef, SecretStore, Target, at,
  discovery_family_not_found, duplicate_provider, family_id_empty, family_name_empty,
  family_provider_empty, family_provider_mismatch, invalid_discovery_family, invalid_secret_input,
  invalid_target, invalid_target_option, provider_not_found, staging_not_supported,
}
use bootup.Provider.Source.{UrlParser}
use bootup.Provider.Fragments.{validate_selected_options}
use bootup.Provider.SecretRefs.{resolve_secret_refs}
use bootup.Provider.Validation.{validate_target}

pub data StageOperation : Type 0 where
  fetching verifying writing extracting : StageOperation

pub data StageState : Type 0 where
  started completed : StageState

pub record StageProgress : Type 0 where
  pub operation : StageOperation
  pub state : StageState
  pub artifact : String

-- A callback, as what it returns when it is called.
abbrev pub StageProgressFunc : Type 0
StageProgressFunc = StageProgress → Result Error (Unit {0})

-- `ReportStageProgress`; a nil callback is `none`
unfoldable pub report_stage_progress :
    Option StageProgressFunc → StageProgress → Result Error (Unit {0})
report_stage_progress none event = ok tt
report_stage_progress (some progress) event = progress event

pub record StageConfig : Type 0 where
  pub plan : BootPlan
  pub staging_dir : String
  pub secrets : Option SecretStore
  pub secret_refs : List SecretRef
  pub progress : Option StageProgressFunc

pub record DiscoveryFamily : Type 0 where
  pub id : String
  pub provider_id : String
  pub name : String
  pub description : String

pub record Discoverer : Type 0 where
  pub discovery_family : DiscoveryFamily
  pub discover_targets : Result Error (List Target)

pub record Provider : Type 0 where
  pub id : String
  pub targets : Result Error (List Target)
  pub plan : PlanInput → Result Error BootPlan
  pub discoverer : Option Discoverer
  pub stager : Option (StageConfig → Result Error BootPlan)

-- The map from IDs to providers, in the order in which Go happens to range over it.
pub record Registry : Type 0 where
  pub providers : List (String × Provider)

abbrev pub new_registry : Registry
new_registry = record { providers = [] }

unfoldable pub register : Registry → Provider → Result Error Registry
register r provider =
    if contains provider.id (keys r.providers)
    then err (duplicate_provider provider.id)
    else ok (record { providers = (provider.id, provider) ∷ r.providers })

-- the sorted IDs
unfoldable pub sorted_ids : Registry → List String
unfolding sort_texts
sorted_ids r = sort_texts (keys r.providers)

unfoldable pub validate_discovery_family :
    String → DiscoveryFamily → Result FamilyProblem (Unit {0})
validate_discovery_family provider_id family = do
  refuse_if (is_blank family.id) family_id_empty
  refuse_if (is_blank family.provider_id) family_provider_empty
  refuse_if (not (family.provider_id == provider_id)) family_provider_mismatch
  refuse_if (is_blank family.name) family_name_empty

-- `r.providers[id].(Discoverer)`
abbrev discoverer_of : Option Provider → Option Discoverer
discoverer_of none = none
discoverer_of (some provider) = provider.discoverer

abbrev lookup_discoverer : String → List (String × Provider) → Option Discoverer
lookup_discoverer id providers = discoverer_of (lookup id providers)

module _ (parse_url : UrlParser) where
  -- the loop that validates the targets of one provider
  unfoldable pub validate_all : String → List Target → Result Error (Unit {0})
  validate_all id [] = ok tt
  validate_all id (target ∷ targets) = do
    wrap invalid_target (validate_target parse_url id target)
    validate_all id targets

  -- one round of the loop of `Targets`
  unfoldable pub provider_targets : String → Option Provider → Result Error (List Target)
  unfolding validate_all
  provider_targets id none = ok []
  provider_targets id (some provider) =
      wrap (at id) (do targets ← provider.targets; validate_all id targets; ok targets)

  unfoldable pub targets_of : Registry → List String → Result Error (List Target)
  unfolding provider_targets
  targets_of r [] = ok []
  targets_of r (id ∷ ids) = do
    targets ← provider_targets id (lookup id r.providers)
    more ← targets_of r ids
    ok (targets ++ more)

  unfoldable pub targets : Registry → Result Error (List Target)
  unfolding targets_of sorted_ids
  targets r = targets_of r (sorted_ids r)

  -- the loop of `DiscoverTargets`; a provider that does not discover, or another family, is passed over
  unfoldable pub discover_from : Registry → String → List String → Result Error (List Target)
  unfolding validate_discovery_family validate_all
  discover_from r family_id [] = err (discovery_family_not_found family_id)
  discover_from r family_id (id ∷ ids) =
      let rest = discover_from r family_id ids in
      elim (lookup_discoverer id r.providers) [
        | none ↦ rest
        | some d ↦ do
          wrap (λ e. at id (invalid_discovery_family e))
              (validate_discovery_family id d.discovery_family)
          if not (d.discovery_family.id == family_id)
              then rest
              else wrap (at family_id)
                  (do found ← d.discover_targets; validate_all id found; ok found)
      ]

  unfoldable pub discover_targets : Registry → String → Result Error (List Target)
  unfolding discover_from sorted_ids
  discover_targets r family_id = discover_from r family_id (sorted_ids r)

unfoldable pub families_of : Registry → List String → Result Error (List DiscoveryFamily)
unfolding validate_discovery_family
families_of r [] = ok []
families_of r (id ∷ ids) =
    let rest = families_of r ids in
    elim (lookup_discoverer id r.providers) [
      | none ↦ rest
      | some d ↦ do
        wrap (λ e. at id (invalid_discovery_family e))
            (validate_discovery_family id d.discovery_family)
        more ← rest
        ok (d.discovery_family ∷ more)
    ]

unfoldable pub discovery_families : Registry → Result Error (List DiscoveryFamily)
unfolding families_of sorted_ids
discovery_families r = families_of r (sorted_ids r)

-- the last statement of `Plan`
abbrev with_refs : List SecretRef → BootPlan → BootPlan
with_refs [] plan = plan
with_refs (ref ∷ refs) plan = record plan { secret_refs = ref ∷ refs }

unfoldable pub plan : Registry → PlanInput → Result Error BootPlan
plan r input = do
  wrap invalid_target_option (validate_selected_options input.target input.options)
  refs ←
      wrap invalid_secret_input
        (resolve_secret_refs input.target.secrets input.secret_refs input.secrets)
  elim (lookup input.target.provider_id r.providers) [
    | none ↦ err (provider_not_found input.target.provider_id)
    | some provider ↦ do
      made ← wrap (at input.target.id) (provider.plan (record input { secret_refs = refs }))
      ok (with_refs refs made)
  ]

-- the references of a stage request: its own, else those of the plan
abbrev stage_refs : List SecretRef → List SecretRef → List SecretRef
stage_refs [] of_plan = of_plan
stage_refs (ref ∷ refs) of_plan = ref ∷ refs

unfoldable pub stage : Registry → StageConfig → Result Error BootPlan
stage r config = do
  let target = config.plan.target
  refs ← wrap invalid_secret_input (
      resolve_secret_refs target.secrets (stage_refs config.secret_refs config.plan.secret_refs)
        config.secrets)
  elim (lookup target.provider_id r.providers) [
    | none ↦ err (provider_not_found target.provider_id)
    | some provider ↦ elim provider.stager [
      | none ↦ err (staging_not_supported provider.id)
      | some stager ↦ wrap (at target.id) (stager (record config { secret_refs = refs }))
    ]
  ]
