-- ===== src/Provider/Validation.antt =====
-- `ValidateTarget`, and the checks of its parts that are in no module of their own.
use bootup.Common.{
  Bool, List, Result, String, [], contains, if◌then◌else◌, not, ok, refuse_if, ◌&&◌, ◌==◌, ◌>>◌,
  ◌||◌, ◌∷◌,
}
use bootup.Text.{has_margin, is_blank, is_date, is_empty}
use bootup.Provider.{
  BootAction, CatalogEntry, LifecycleEntry, SecretInput, Target, TargetProblem, action_invalid,
  architecture_empty, date_invalid, date_spaces, distribution_empty, freebsd_kboot, id_empty,
  kind_empty, lifecycle_source_spaces, linux_kexec, local_boot, name_empty, provider_id_empty,
  provider_id_mismatch, release_empty, resolve_boot_action, secret_delivery_empty,
  secret_delivery_invalid, secret_id_duplicate, secret_id_empty, secret_id_invalid,
  secret_label_empty, secret_purpose_empty, status_empty, status_invalid,
}
use bootup.Provider.Source.{UrlParser, validate_source_entry}
use bootup.Provider.Options.{valid_option_id, validate_target_options}

unfoldable pub validate_boot_action : BootAction → Result TargetProblem (Unit {0})
unfolding resolve_boot_action
validate_boot_action action =
    let resolved = resolve_boot_action action in
    refuse_if (not (resolved == linux_kexec || resolved == local_boot || resolved == freebsd_kboot))
      action_invalid

unfoldable pub validate_catalog_entry : CatalogEntry → Result TargetProblem (Unit {0})
validate_catalog_entry catalog = do
  refuse_if (is_blank catalog.distribution) distribution_empty
  refuse_if (is_blank catalog.release) release_empty
  refuse_if (is_blank catalog.architecture) architecture_empty
  refuse_if (is_blank catalog.kind) kind_empty

-- `lifecycle == (LifecycleEntry{})`
abbrev is_zero_lifecycle : LifecycleEntry → Bool
is_zero_lifecycle l = is_empty l.status && is_empty l.origin && is_empty l.date

abbrev known_status : String → Bool
known_status s = s == "supported" || s == "obsolete" || s == "eol" || s == "unknown"

unfoldable pub validate_lifecycle_entry : LifecycleEntry → Result TargetProblem (Unit {0})
unfolding is_date
validate_lifecycle_entry l = if is_zero_lifecycle l then ok tt else do
  refuse_if (not (known_status l.status) && is_empty l.status) status_empty
  refuse_if (not (known_status l.status)) status_invalid
  refuse_if (has_margin l.origin) lifecycle_source_spaces
  refuse_if (has_margin l.date) date_spaces
  refuse_if (not (is_empty l.date) && not (is_date l.date)) date_invalid

abbrev pub staged_file : String
staged_file = "staged-file"

-- the body of the loop of `validateSecretInputs`
unfoldable pub validate_secret_input : List String → SecretInput → Result TargetProblem (Unit {0})
unfolding valid_option_id
validate_secret_input seen secret = do
  refuse_if (is_blank secret.id) secret_id_empty
  refuse_if (not (valid_option_id secret.id)) secret_id_invalid
  refuse_if (contains secret.id seen) secret_id_duplicate
  refuse_if (is_blank secret.label) secret_label_empty
  refuse_if (is_blank secret.purpose) secret_purpose_empty
  refuse_if (not (secret.delivery == staged_file) && is_empty secret.delivery) secret_delivery_empty
  refuse_if (not (secret.delivery == staged_file)) secret_delivery_invalid

unfoldable pub validate_secrets_from :
    List String → List SecretInput → Result TargetProblem (Unit {0})
unfolding validate_secret_input
validate_secrets_from seen [] = ok tt
validate_secrets_from seen (secret ∷ secrets) = do
  validate_secret_input seen secret
  validate_secrets_from (secret.id ∷ seen) secrets

unfoldable pub validate_secret_inputs : List SecretInput → Result TargetProblem (Unit {0})
unfolding validate_secrets_from
validate_secret_inputs secrets = validate_secrets_from [] secrets

unfoldable pub validate_target : UrlParser → String → Target → Result TargetProblem (Unit {0})
unfolding validate_boot_action validate_catalog_entry validate_source_entry validate_lifecycle_entry
    validate_target_options validate_secret_inputs
validate_target parse_url provider_id target = do
  refuse_if (is_blank target.id) id_empty
  refuse_if (is_blank target.provider_id) provider_id_empty
  refuse_if (not (target.provider_id == provider_id)) provider_id_mismatch
  refuse_if (is_blank target.name) name_empty
  validate_boot_action target.action
  validate_catalog_entry target.catalog
  validate_source_entry parse_url target.source
  validate_lifecycle_entry target.lifecycle
  validate_target_options target.options
  validate_secret_inputs target.secrets
