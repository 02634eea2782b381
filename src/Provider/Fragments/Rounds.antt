-- ===== src/Provider/Fragments/Rounds.antt =====
-- One round of the loop over the declared options, and the end of the loop.
use bootup.Common.{
  List, Result-cases, String, [], arith, delete, if◌then◌else◌, inl, inr, lookup, ok, refl, some,
  ◌∷◌, ◌≡◌,
}
use bootup.Provider.{SelectedOption, TargetOption}
use bootup.Provider.Fragments.{Selections, all_taken, collect_fragments, selected_option_fragment}
use bootup.Text.{is_empty}

-- One round of the loop that succeeds.
pub record Collected (option : TargetOption) (options : List TargetOption) (m : Selections)
    (selected : SelectedOption) (fragments : List String) (left : Selections) : Type 0 where
  pub fragment : String
  pub rest : List String
  pub made : selected_option_fragment option selected ≡ ok fragment
  pub collected : collect_fragments options (delete option.id m) ≡ ok (rest, left)
  pub whole : fragments ≡ (if is_empty fragment then rest else fragment ∷ rest)

pub collect_fragments-Collected :
    (option : TargetOption) (options : List TargetOption) (m : Selections)
    (selected : SelectedOption) (fragments : List String) (left : Selections)
    → lookup option.id m ≡ some selected
    → collect_fragments (option ∷ options) m ≡ ok (fragments, left)
    → Collected option options m selected fragments left
unfolding collect_fragments
collect_fragments-Collected option options m selected fragments left found h =
    elim (Result-cases (selected_option_fragment option selected)) [
      | inr (e, failed) ↦ absurd (ground (arith, found, failed))
      | inl (fragment, made) ↦
          elim (Result-cases (collect_fragments options (delete option.id m))) [
            | inr (e, failed) ↦ absurd (ground (arith, found, made, failed))
            | inl ((rest, left'), collected) ↦ record {
              fragment = fragment;
              rest = rest;
              made = made;
              collected = ground (arith, found, made, collected);
              whole = ground (arith, found, made, collected);
            }
          ]
    ]

pub all_taken_inv :
    (fs : List String) (left : Selections) (fragments : List String)
    → all_taken (fs, left) ≡ ok fragments
    → (fs ≡ fragments) × (left ≡ [])
unfolding all_taken
all_taken_inv fs [] fragments h = (ground arith, refl)
all_taken_inv fs (x ∷ left) fragments h = cc
