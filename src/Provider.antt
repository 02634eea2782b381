-- ===== src/Provider.antt =====
-- internal/provider/provider.go: the types of targets, plans and providers. The children follow
-- the functions of the file: Source, Options, Fragments, SecretRefs, Validation and Registry.
mod Examples
pub mod Source
pub mod Options
pub mod Fragments
pub mod SecretRefs
pub mod Validation
pub mod Registry
use bootup.Common.{Bool, List, Option, String, if◌then◌else◌}
use bootup.Text.{is_empty}

pub record CatalogEntry : Type 0 where
  pub distribution : String
  pub release : String
  pub architecture : String
  pub kind : String

pub record SourceEntry : Type 0 where
  pub base_url : String
  pub iso_name : String
  pub iso_sha256 : String
  pub kernel_path : String
  pub initrd_path : String
  pub kernel_sha256 : String
  pub initrd_sha256 : String
  pub cmdline : String

-- A boot action is any text; these are the known ones.
abbrev pub BootAction : Type 0
BootAction = String

abbrev pub linux_kexec : BootAction
linux_kexec = "linux-kexec"

abbrev pub local_boot : BootAction
local_boot = "localboot"

abbrev pub freebsd_kboot : BootAction
freebsd_kboot = "freebsd-kboot"

pub record LifecycleEntry : Type 0 where
  pub status : String
  pub origin : String
  pub date : String

pub record TargetOptionValue : Type 0 where
  pub value : String
  pub label : String
  pub fragment : String

pub record TargetOption : Type 0 where
  pub id : String
  pub label : String
  pub type : String
  pub fragment : String
  pub values : List TargetOptionValue
  pub template : String
  pub secret : Bool

pub record SecretInput : Type 0 where
  pub id : String
  pub label : String
  pub purpose : String
  pub required : Bool
  pub delivery : String

pub record SelectedOption : Type 0 where
  pub id : String
  pub value : String

pub record SecretRef : Type 0 where
  pub id : String
  pub input_id : String

-- What the providers see of the secret inputs; `StageFile` is in Secrets.
pub record SecretStore : Type 0 where
  pub ids : List String
  pub has : String → Bool

pub record Target : Type 0 where
  pub id : String
  pub provider_id : String
  pub name : String
  pub action : BootAction
  pub catalog : CatalogEntry
  pub source : SourceEntry
  pub lifecycle : LifecycleEntry
  pub options : List TargetOption
  pub secrets : List SecretInput

-- A nil store is `none`.
pub record PlanInput : Type 0 where
  pub target : Target
  pub options : List SelectedOption
  pub secrets : Option SecretStore
  pub secret_refs : List SecretRef
  pub offline : Bool

pub record Artifact : Type 0 where
  pub name : String
  pub url : String
  pub sha256 : String
  pub path : String

pub record Verification : Type 0 where
  pub metadata_url : String
  pub checksum_url : String
  pub signature_url : String

pub record FreeBsdKbootPlan : Type 0 where
  pub loader : Artifact
  pub loader_help : Artifact
  pub loader_archive : Artifact
  pub payload : Artifact
  pub payload_root : String
  pub args : List String

pub record BootPlan : Type 0 where
  pub target : Target
  pub action : BootAction
  pub kernel : Artifact
  pub initrd : Artifact
  pub cmdline : String
  pub verification : Verification
  pub freebsd_kboot : FreeBsdKbootPlan
  pub secret_refs : List SecretRef

unfoldable pub resolve_boot_action : BootAction → BootAction
resolve_boot_action action = if is_empty action then linux_kexec else action

unfoldable pub resolved_action : BootPlan → BootAction
unfolding resolve_boot_action
resolved_action plan = resolve_boot_action plan.action

-- What is wrong with a target, one constructor for each message.
pub data TargetProblem : Type 0 where
  id_empty provider_id_empty provider_id_mismatch name_empty action_invalid : TargetProblem
  distribution_empty release_empty architecture_empty kind_empty : TargetProblem
  base_url_spaces base_url_invalid base_url_scheme base_url_host : TargetProblem
  iso_name_spaces iso_name_not_file iso_sha256_spaces cmdline_spaces : TargetProblem
  path_spaces path_invalid path_not_relative path_not_clean : String → TargetProblem
  pin_spaces pin_needs_path pin_not_sha256 : String → TargetProblem
  pins_not_together : TargetProblem
  status_empty status_invalid lifecycle_source_spaces date_spaces date_invalid : TargetProblem
  option_id_empty option_id_invalid option_id_duplicate option_label_empty : TargetProblem
  option_secret option_fields option_type_empty option_type_invalid : TargetProblem
  value_none value_empty value_invalid value_duplicate value_label_spaces : TargetProblem
  fragment_empty fragment_spaces fragment_template fragment_control : TargetProblem
  template_empty template_spaces template_count template_control : TargetProblem
  secret_id_empty secret_id_invalid secret_id_duplicate secret_label_empty : TargetProblem
  secret_purpose_empty secret_delivery_empty secret_delivery_invalid : TargetProblem

pub data OptionProblem : Type 0 where
  selected_id_empty selected_duplicate undeclared : OptionProblem
  not_boolean not_allowed text_empty text_invalid type_invalid : OptionProblem
  bad_fragment : TargetProblem → OptionProblem

pub data SecretProblem : Type 0 where
  ref_id_empty ref_duplicate ref_undeclared input_id_invalid input_missing required_missing :
      SecretProblem

pub data FamilyProblem : Type 0 where
  family_id_empty family_provider_empty family_provider_mismatch family_name_empty : FamilyProblem

-- The sentinels of the package with what they wrap, and the errors of providers.
pub data Error : Type 0 where
  duplicate_provider provider_not_found staging_not_supported : String → Error
  discovery_family_not_found : String → Error
  invalid_target : TargetProblem → Error
  invalid_target_option : OptionProblem → Error
  invalid_secret_input : SecretProblem → Error
  invalid_discovery_family : FamilyProblem → Error
  at : String → Error → Error
  provider_error : String → Error
