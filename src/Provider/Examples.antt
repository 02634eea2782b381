-- ===== src/Provider/Examples.antt =====
-- A target on which the theorems about providers are used, and tests of the definitions.
use bootup.Provider.{SelectedOption, SourceEntry, TargetOption, path_not_clean}
use bootup.Provider.Source.{UrlParser, validate_source_hash_pins, validate_source_path}
use bootup.Provider.Source.Laws.{IsBelow, validate_source_path-IsBelow}
use bootup.Provider.Options.{bool_type, string_type, validate_target_options}
use bootup.Provider.Options.Laws.{
  IsFragment, IsSafeOption, option_ids, validate_target_options_sound,
}
use bootup.Provider.Fragments.{selected_option_fragments}
use bootup.Provider.Fragments.Printable.{selected_option_fragments-IsFragment}
use bootup.Common.{All, Distinct, List, String, [], err, false, ok, refl, some, ◌∷◌, ◌≡◌}
use bootup.Text.{decode_hex, is_control, trim_space}

-- Every text is a relative reference.
abbrev relative : UrlParser
relative = λ _. some (record { scheme = ""; host = ""; path = "" })

abbrev digest : String
digest = "0000000000000000000000000000000000000000000000000000000000000000"

abbrev entry : SourceEntry
entry = record {
  base_url = "";
  iso_name = "";
  iso_sha256 = "";
  kernel_path = "casper/vmlinuz";
  initrd_path = "casper/initrd";
  kernel_sha256 = digest;
  initrd_sha256 = digest;
  cmdline = "";
}

abbrev hostname : TargetOption
hostname = record {
  id = "hostname";
  label = "Host name";
  type = string_type;
  fragment = "";
  values = [];
  template = "hostname={value}";
  secret = false;
}

abbrev quiet : TargetOption
quiet = record {
  id = "quiet";
  label = "Quiet";
  type = bool_type;
  fragment = "quiet";
  values = [];
  template = "";
  secret = false;
}

abbrev declared : List TargetOption
declared = hostname ∷ quiet ∷ []

abbrev chosen : List SelectedOption
chosen = record { id = "quiet"; value = "true" } ∷ record { id = "hostname"; value = "node1" } ∷ []

path_passes : validate_source_path relative "kernel path" "casper/vmlinuz" ≡ ok tt
unfolding validate_source_path trim_space
path_passes = refl

parent_fails :
    validate_source_path relative "kernel path" "../vmlinuz" ≡ err (path_not_clean "kernel path")
unfolding validate_source_path trim_space
parent_fails = refl

pins_pass : validate_source_hash_pins entry ≡ ok tt
unfolding validate_source_hash_pins trim_space decode_hex
pins_pass = refl

declared_pass : validate_target_options declared ≡ ok tt
unfolding validate_target_options trim_space is_control
declared_pass = refl

chosen_fragments : selected_option_fragments declared chosen ≡ ok ("hostname=node1" ∷ "quiet" ∷ [])
unfolding selected_option_fragments trim_space is_control
chosen_fragments = refl

validate_source_path-IsBelow_example : IsBelow "casper/vmlinuz"
validate_source_path-IsBelow_example =
    validate_source_path-IsBelow relative "kernel path" "casper/vmlinuz" path_passes

validate_target_options_sound_example : All IsSafeOption declared × Distinct (option_ids declared)
validate_target_options_sound_example = validate_target_options_sound declared declared_pass

selected_option_fragments-IsFragment_example : All IsFragment ("hostname=node1" ∷ "quiet" ∷ [])
selected_option_fragments-IsFragment_example =
    selected_option_fragments-IsFragment declared chosen ("hostname=node1" ∷ "quiet" ∷ [])
      declared_pass chosen_fragments
