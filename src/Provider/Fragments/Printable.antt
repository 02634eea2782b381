-- ===== src/Provider/Fragments/Printable.antt =====
-- What a selection adds to a command line can stand there.
use bootup.Common.{
  >>=-eq-ok, All, Bool-cases, List, Option-cases, Result, String, [], ap, arith, delete, err, false,
  if◌then◌else◌, inl, inr, lookup, ok, some, true, ◌==◌, ◌∷◌, ◌≡◌,
}
use bootup.Text.{is_empty}
use bootup.Provider.{OptionProblem, SelectedOption, TargetOption, TargetOptionValue, not_boolean}
use bootup.Provider.Options.{
  bool_type, enum_type, validate_cmdline_fragment, validate_target_options,
}
use bootup.Provider.Options.Laws.{
  AreFragments, IsFragment, IsSafeOption, validate_cmdline_fragment-IsFragment,
  validate_cmdline_fragment-required, validate_target_options_sound,
}
use bootup.Provider.Fragments.Rounds.{all_taken_inv, collect_fragments-Collected}
use bootup.Provider.Fragments.{
  Selections, all_taken, collect_fragments, find_fragment, select_by_id, selected_option_fragment,
  selected_option_fragments, validate_expanded_fragment,
}

find_fragment-AreFragments :
    (chosen : String) (values : List TargetOptionValue) (fragment : String)
    → AreFragments values
    → find_fragment chosen values ≡ some fragment
    → is_empty fragment ≡ false
    → IsFragment fragment
unfolding find_fragment
find_fragment-AreFragments chosen [] fragment h e = cc
find_fragment-AreFragments chosen (v ∷ values) fragment h e =
    elim (Bool-cases (chosen == v.value)) [
      | inl here ↦ let same : v.fragment ≡ fragment = ground (arith, here) in rw (← same) h.0
      | inr later ↦ find_fragment-AreFragments chosen values fragment h.1 (ground (arith, later))
    ]

validate_expanded_fragment-IsFragment :
    (fragment : String) → validate_expanded_fragment fragment ≡ ok tt → IsFragment fragment
unfolding validate_expanded_fragment
validate_expanded_fragment-IsFragment fragment h =
    let accepted : validate_cmdline_fragment fragment true ≡ ok tt = ground arith in
    validate_cmdline_fragment-IsFragment fragment true accepted
      (validate_cmdline_fragment-required fragment accepted)

-- a flag that is not set gives nothing
fragment_off :
    (selected : SelectedOption) (fragment : String)
    → is_empty fragment ≡ false
    → (selected.value == "true") ≡ false
    → (if selected.value == "false" then ok "" else err not_boolean) ≡ ok fragment
    → ⊥
fragment_off selected fragment full off h = elim (Bool-cases (selected.value == "false")) [
  | inl no_flag ↦
      let none_left : ◌≡◌ {A = Result OptionProblem String} (ok "") (ok fragment) =
        rw no_flag at h in
      let bare : "" ≡ fragment = cc none_left in cc (ap is_empty bare, full)
  | inr other ↦
      let e : ◌≡◌ {A = Result OptionProblem String} (err not_boolean) (ok fragment) =
        rw other at h in
      cc
]

-- The fragment of a safe option is empty or can stand in a command line.
selected_option_fragment-IsFragment :
    (option : TargetOption) (selected : SelectedOption) (fragment : String)
    → IsSafeOption option
    → selected_option_fragment option selected ≡ ok fragment
    → is_empty fragment ≡ false
    → IsFragment fragment
unfolding selected_option_fragment
selected_option_fragment-IsFragment option selected fragment safe h full =
    elim (Bool-cases (option.type == bool_type)) [
      | inl flag ↦ elim (Bool-cases (selected.value == "true")) [
        | inl on ↦
            let same : option.fragment ≡ fragment = ground arith in
            rw (← same) (safe.bool_fragment flag)
        | inr off ↦ absurd (fragment_off selected fragment full off (rw (flag, off) at h))
      ]
      | inr not_flag ↦ elim (Bool-cases (option.type == enum_type)) [
        | inl choice ↦
            let found : find_fragment selected.value option.values ≡ some fragment = ground arith in
            find_fragment-AreFragments selected.value option.values fragment
              (safe.enum_fragments choice) found full
        | inr text ↦
            validate_expanded_fragment-IsFragment fragment
              (ground (arith, safe.one_placeholder not_flag text))
      ]
    ]

collect_fragments-IsFragment :
    (options : List TargetOption) (m : Selections) (fragments : List String) (left : Selections)
    → All IsSafeOption options
    → collect_fragments options m ≡ ok (fragments, left)
    → All IsFragment fragments
unfolding collect_fragments
collect_fragments-IsFragment [] m fragments left safe h =
    let bare : fragments ≡ [] = ground arith in rw bare tt
collect_fragments-IsFragment (option ∷ options) m fragments left safe h =
    elim (Option-cases (lookup option.id m)) [
      | inl missing ↦
          collect_fragments-IsFragment options m fragments left safe.1 (ground (arith, missing))
      | inr (selected, found) ↦
          let c = collect_fragments-Collected option options m selected fragments left found h in
          let rest =
            collect_fragments-IsFragment options (delete option.id m) c.rest left safe.1
              c.collected in
          rw (c.whole) (elim (Bool-cases (is_empty c.fragment)) [
            | inl bare ↦ rw bare rest
            | inr full ↦ rw full (
              selected_option_fragment-IsFragment option selected c.fragment safe.0 c.made full,
              rest,
            )
          ])
    ]

-- Every fragment that a selection adds to a target with accepted options is not empty, is
-- trimmed, holds no "{value}" and no control character.
pub selected_option_fragments-IsFragment :
    (options : List TargetOption) (selected : List SelectedOption) (fragments : List String)
    → validate_target_options options ≡ ok tt
    → selected_option_fragments options selected ≡ ok fragments
    → All IsFragment fragments
unfolding selected_option_fragments
selected_option_fragments-IsFragment options [] fragments accepted h =
    let bare : fragments ≡ [] = ground arith in rw bare tt
selected_option_fragments-IsFragment options (s ∷ selected) fragments accepted h =
    let (m, by_id, taken) = >>=-eq-ok (select_by_id [] (s ∷ selected)) _ h in
    let ((fs, left), collected, all) = >>=-eq-ok (collect_fragments options m) all_taken taken in
    rw (← (all_taken_inv fs left fragments all).0) (
      collect_fragments-IsFragment options m fs left
        ((validate_target_options_sound options accepted).0) collected)
