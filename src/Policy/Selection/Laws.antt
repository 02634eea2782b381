-- ===== src/Policy/Selection/Laws.antt =====
-- What a validated decision selects.
use bootup.Text.{sort_texts}
use bootup.Text.Order.Laws.{contains-sort_texts}
use bootup.Provider.{SecretStore, SelectedOption, Target}
use bootup.Provider.Options.{validate_target_options}
use bootup.Provider.Options.Laws.{IsFragment}
use bootup.Provider.Fragments.{selected_option_fragments, validate_selected_options}
use bootup.Provider.Fragments.Printable.{selected_option_fragments-IsFragment}
use bootup.Provider.SecretRefs.{resolve_secret_refs}
use bootup.Provider.SecretRefs.Laws.{AreResolved, resolve_secret_refs-AreResolved}
use bootup.Policy.{Decision, options_rejected, secrets_rejected}
use bootup.Policy.Selection.{
  Selection, options_at, selected_options, selected_secret_refs, target_by_id, validate_decision,
  value_at,
}
use bootup.Common.{
  >>-eq-ok, >>=-eq-ok, All, Bool-cases, List, Option, Option-cases, String, [], ap, arith, contains,
  eq_iff, false, if◌then◌else◌, inl, inr, keys, lookup, lookup-none, lookup-some, none, ok, refl,
  some, sym, wrap, wrap-eq-ok, ◌++◌, ◌==◌, ◌∙◌, ◌∷◌, ◌≡◌,
}

-- The first target of an inventory with the ID.
pub record IsFirst (targets : List Target) (id : String) (target : Target) : Type 0 where
  pub before : List Target
  pub after : List Target
  pub whole : targets ≡ before ++ target ∷ after
  pub same : target.id ≡ id
  pub others : All (λ t. (t.id == id) ≡ false) before

target_by_id-IsFirst :
    (targets : List Target) (id : String) (target : Target)
    → target_by_id targets id ≡ some target
    → IsFirst targets id target
unfolding target_by_id
target_by_id-IsFirst [] id target h = cc
target_by_id-IsFirst (t ∷ targets) id target h = elim (Bool-cases (t.id == id)) [
  | inl here ↦
      let found : t ≡ target = ground (arith, here) in
      rw (← found) (record {
        before = [];
        after = targets;
        whole = refl;
        same = (eq_iff t.id id).0 here;
        others = tt;
      })
  | inr later ↦
      let rest = target_by_id-IsFirst targets id target (ground (arith, later)) in
      record {
        before = t ∷ rest.before;
        after = rest.after;
        whole = ap (λ ts. t ∷ ts) rest.whole;
        same = rest.same;
        others = (later, rest.others);
      }
]

abbrev pub option_map : List SelectedOption → List (String × String)
option_map [] = []
option_map (o ∷ os) = (o.id, o.value) ∷ option_map os

lookup-options_at :
    (values : List (String × String)) (ids : List String) (id : String)
    → lookup id (option_map (options_at values ids))
      ≡ (if contains id ids then some (value_at id values) else none)
unfolding options_at
lookup-options_at values [] id = refl
lookup-options_at values (i ∷ ids) id = elim (Bool-cases (i == id)) [
  | inl here ↦ rw here (ap (λ j. some (value_at j values)) ((eq_iff i id).0 here))
  | inr later ↦ rw later (lookup-options_at values ids id)
]

-- The selected options are the decision's map: each of its IDs, with its value, and no other.
lookup-selected_options :
    (values : List (String × String)) (id : String)
    → lookup id (option_map (selected_options values)) ≡ lookup id values
unfolding selected_options value_at
lookup-selected_options values id =
    let at = lookup-options_at values (sort_texts (keys values)) id in
    let member = contains-sort_texts id (keys values) in
    elim (Bool-cases (contains id (keys values))) [
      | inl known ↦
          let (value, found) = lookup-some id values known in
          at
          ∙ ap (λ b. if b then some (value_at id values) else none) (member ∙ known)
          ∙ ap (λ (v : Option String). some (elim v [ none ↦ "" | some value ↦ value ])) found
          ∙ sym found
      | inr unknown ↦
          at
          ∙ ap (λ b. if b then some (value_at id values) else none) (member ∙ unknown)
          ∙ sym (lookup-none id values unknown)
    ]

-- A selection that follows a decision: the first target of the inventory with the decision's
-- target ID, exactly the decision's options, which the target takes, and resolved references.
pub record IsSelected (decision : Decision) (targets : List Target) (secrets : Option SecretStore)
    (selection : Selection) : Type 0 where
  pub first : IsFirst targets decision.target_id selection.target
  pub options :
      (id : String) → lookup id (option_map selection.options) ≡ lookup id decision.options
  pub fragments : List String
  pub taken : selected_option_fragments selection.target.options selection.options ≡ ok fragments
  pub printable :
      validate_target_options selection.target.options ≡ ok tt → All IsFragment fragments
  pub resolved : AreResolved selection.target.secrets secrets selection.secret_refs

validated_fragments :
    (target : Target) (options : List SelectedOption)
    → wrap (λ _. options_rejected) (validate_selected_options target options) ≡ ok tt
    → (fragments : List String) × (selected_option_fragments target.options options ≡ ok fragments)
unfolding validate_selected_options
validated_fragments target options h =
    let (fragments, taken, _) =
      >>=-eq-ok (selected_option_fragments target.options options) _
        (wrap-eq-ok (λ _. options_rejected) (validate_selected_options target options) h) in
    (fragments, taken)

-- A decision that validates selects the first target with its target ID, exactly its options,
-- which the target takes, and references that are resolved against the store; where the target's
-- options are accepted ones, every fragment of the options can stand in a command line.
pub validate_decision-IsSelected :
    (decision : Decision) (targets : List Target) (secrets : Option SecretStore)
    (selection : Selection)
    → validate_decision decision targets secrets ≡ ok selection
    → IsSelected decision targets secrets selection
unfolding validate_decision
validate_decision-IsSelected decision targets secrets selection h =
    let options = selected_options decision.options in
    elim (Option-cases (target_by_id targets decision.target_id)) [
      | inl missing ↦ absurd (ground (arith, missing))
      | inr (target, found) ↦
          let (_, checked, h1) =
            >>-eq-ok (wrap (λ _. options_rejected) (validate_selected_options target options)) _
              (rw (validate_decision, found) at h) in
          let (refs, resolved, last) =
            >>=-eq-ok
              (wrap (λ _. secrets_rejected)
                (resolve_secret_refs target.secrets (selected_secret_refs decision.secret_refs)
                  secrets))
              _ h1 in
          let (fragments, taken) = validated_fragments target options checked in
          let same : record { target = target; options = options; secret_refs = refs } ≡ selection =
            cc last in
          rw (← same) (record {
            first = target_by_id-IsFirst targets decision.target_id target found;
            options = lookup-selected_options decision.options;
            fragments = fragments;
            taken = taken;
            printable = λ accepted.
                selected_option_fragments-IsFragment target.options options fragments accepted
                  taken;
            resolved =
                resolve_secret_refs-AreResolved target.secrets secrets
                  (selected_secret_refs decision.secret_refs) refs
                  (wrap-eq-ok (λ _. secrets_rejected) _ resolved);
          })
    ]
