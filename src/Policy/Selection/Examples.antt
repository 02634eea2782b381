-- ===== src/Policy/Selection/Examples.antt =====
-- An inventory and a decision on which the theorem about validated decisions is used.
use bootup.Provider.{Target, TargetOption}
use bootup.Provider.Options.{bool_type}
use bootup.Policy.{Decision, target_unknown}
use bootup.Policy.Selection.{Selection, validate_decision}
use bootup.Policy.Selection.Laws.{IsSelected, validate_decision-IsSelected}
use bootup.Common.{[], err, false, none, ok, pos, refl, some, ◌∷◌, ◌≡◌}
use bootup.Text.{trim_space}

abbrev quiet : TargetOption
quiet = record {
  id = "quiet";
  label = "Quiet";
  type = bool_type;
  fragment = "quiet";
  values = [];
  template = "";
  secret = false;
}

abbrev target : Target
target = record {
  id = "mini-1";
  provider_id = "mini";
  name = "Mini 1";
  action = "";
  catalog = record { distribution = "mini"; release = "1"; architecture = "amd64"; kind = "live" };
  source = record {
    base_url = "";
    iso_name = "";
    iso_sha256 = "";
    kernel_path = "";
    initrd_path = "";
    kernel_sha256 = "";
    initrd_sha256 = "";
    cmdline = "";
  };
  lifecycle = record { status = ""; origin = ""; date = "" };
  options = quiet ∷ [];
  secrets = [];
}

abbrev decision : Decision
decision = record {
  schema_version = pos 1;
  decision_id = "night-build";
  target_id = "mini-1";
  options = ("quiet", "true") ∷ [];
  secret_refs = [];
  published_at = none;
  expires_at = some 200;
}

abbrev selection : Selection
selection = record {
  target = target;
  options = record { id = "quiet"; value = "true" } ∷ [];
  secret_refs = [];
}

decision_validates : validate_decision decision (target ∷ []) none ≡ ok selection
unfolding validate_decision trim_space
decision_validates = refl

unknown_fails :
    validate_decision (record decision { target_id = "mini-2" }) (target ∷ []) none
    ≡ err target_unknown
unfolding validate_decision
unknown_fails = refl

validate_decision-IsSelected_example : IsSelected decision (target ∷ []) none selection
validate_decision-IsSelected_example =
    validate_decision-IsSelected decision (target ∷ []) none selection decision_validates
