-- ===== src/Policy/Selection.antt =====
-- `Validate`: a decision against the inventory of targets and the secret store.
mod Examples
pub mod Laws
use bootup.Common.{
  List, Option, Result, String, [], err, if◌then◌else◌, keys, lookup, none, ok, some, wrap, ◌==◌,
  ◌>>=◌, ◌>>◌, ◌∷◌,
}
use bootup.Text.{sort_texts}
use bootup.Provider.{SecretRef, SecretStore, SelectedOption, Target}
use bootup.Provider.Fragments.{validate_selected_options}
use bootup.Provider.SecretRefs.{resolve_secret_refs}
use bootup.Policy.{Decision, PolicyProblem, options_rejected, secrets_rejected, target_unknown}

pub record Selection : Type 0 where
  pub target : Target
  pub options : List SelectedOption
  pub secret_refs : List SecretRef

unfoldable pub target_by_id : List Target → String → Option Target
target_by_id [] id = none
target_by_id (target ∷ targets) id =
    if target.id == id then some target else target_by_id targets id

-- `values[id]`, the empty text where the key is missing
unfoldable pub value_at : String → List (String × String) → String
value_at id values = elim (lookup id values) [ none ↦ "" | some value ↦ value ]

-- the loop over the sorted IDs
unfoldable pub options_at : List (String × String) → List String → List SelectedOption
unfolding value_at
options_at values [] = []
options_at values (id ∷ ids) =
    record { id = id; value = value_at id values } ∷ options_at values ids

unfoldable pub selected_options : List (String × String) → List SelectedOption
unfolding options_at sort_texts
selected_options values = options_at values (sort_texts (keys values))

unfoldable pub refs_at : List (String × String) → List String → List SecretRef
unfolding value_at
refs_at values [] = []
refs_at values (id ∷ ids) = record { id = id; input_id = value_at id values } ∷ refs_at values ids

unfoldable pub selected_secret_refs : List (String × String) → List SecretRef
unfolding refs_at sort_texts
selected_secret_refs values = refs_at values (sort_texts (keys values))

-- `Validate`
unfoldable pub validate_decision :
    Decision → List Target → Option SecretStore → Result PolicyProblem Selection
unfolding target_by_id selected_options selected_secret_refs validate_selected_options
    resolve_secret_refs
validate_decision decision targets secrets = elim (target_by_id targets decision.target_id) [
  | none ↦ err target_unknown
  | some target ↦ do
    let options = selected_options decision.options
    wrap (λ _. options_rejected) (validate_selected_options target options)
    refs ←
        wrap (λ _. secrets_rejected)
          (resolve_secret_refs target.secrets (selected_secret_refs decision.secret_refs) secrets)
    ok (record { target = target; options = options; secret_refs = refs })
]
