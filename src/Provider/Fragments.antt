-- ===== src/Provider/Fragments.antt =====
-- Selected options and the command-line fragments that they stand for:
-- `selectedOptionFragments`, `ApplySelectedOptions` and what they call.
pub mod Rounds
pub mod Printable
pub mod CommandLine
use bootup.Common.{
  List, Option, Result, String, [], contains, delete, err, if◌then◌else◌, keys, lookup, none, ok,
  refuse_if, some, true, wrap, ◌++◌, ◌==◌, ◌>>=◌, ◌>>◌, ◌||◌, ◌∷◌,
}
use bootup.Text.{has_margin, is_blank, is_empty, join, replace_all, trim_space}
use bootup.Provider.{
  BootPlan, OptionProblem, SelectedOption, Target, TargetOption, TargetOptionValue, bad_fragment,
  freebsd_kboot, not_allowed, not_boolean, resolved_action, selected_duplicate, selected_id_empty,
  text_empty, text_invalid, type_invalid, undeclared,
}
use bootup.Provider.Options.{
  bool_type, contains_space_or_control, enum_type, placeholder, string_type,
  validate_cmdline_fragment,
}
use Prim.Native.String

-- A map from option IDs to selections.
abbrev pub Selections : Type 0
Selections = List (String × SelectedOption)

-- the first loop of `selectedOptionFragments`
unfoldable pub select_by_id : Selections → List SelectedOption → Result OptionProblem Selections
select_by_id m [] = ok m
select_by_id m (option ∷ selected) = do
  refuse_if (is_blank option.id) selected_id_empty
  refuse_if (contains option.id (keys m)) selected_duplicate
  select_by_id ((option.id, option) ∷ m) selected

-- the loop over the values of an enum option
unfoldable pub find_fragment : String → List TargetOptionValue → Option String
find_fragment chosen [] = none
find_fragment chosen (value ∷ values) =
    if chosen == value.value then some value.fragment else find_fragment chosen values

-- `validateExpandedCmdlineFragment`
unfoldable pub validate_expanded_fragment : String → Result OptionProblem (Unit {0})
unfolding validate_cmdline_fragment
validate_expanded_fragment fragment = wrap bad_fragment (validate_cmdline_fragment fragment true)

unfoldable pub selected_option_fragment :
    TargetOption → SelectedOption → Result OptionProblem String
unfolding find_fragment validate_expanded_fragment contains_space_or_control replace_all
selected_option_fragment option selected =
    if option.type == bool_type
    then if selected.value == "true"
      then ok option.fragment
      else if selected.value == "false"
      then ok ""
      else err not_boolean
    else if option.type == enum_type
    then elim (find_fragment selected.value option.values) [
      | some fragment ↦ ok fragment
      | none ↦ err not_allowed
    ]
    else if option.type == string_type
    then (do
      refuse_if (is_blank selected.value) text_empty
      refuse_if (has_margin selected.value || contains_space_or_control selected.value) text_invalid
      let fragment = replace_all option.template placeholder selected.value
      validate_expanded_fragment fragment
      ok fragment)
    else err type_invalid

-- the loop over the declared options: the fragments, and the selections that no option took
unfoldable pub collect_fragments :
    List TargetOption → Selections → Result OptionProblem (List String × Selections)
unfolding selected_option_fragment
collect_fragments [] m = ok ([], m)
collect_fragments (option ∷ options) m = elim (lookup option.id m) [
  | none ↦ collect_fragments options m
  | some selected ↦ do
    fragment ← selected_option_fragment option selected
    rest ← collect_fragments options (delete option.id m)
    ok (if is_empty fragment then rest.0 else fragment ∷ rest.0, rest.1)
]

-- a selection that is left over names no declared option
unfoldable pub all_taken : List String × Selections → Result OptionProblem (List String)
all_taken (fragments, []) = ok fragments
all_taken (fragments, _ ∷ _) = err undeclared

unfoldable pub selected_option_fragments :
    List TargetOption → List SelectedOption → Result OptionProblem (List String)
unfolding select_by_id collect_fragments all_taken
selected_option_fragments options [] = ok []
selected_option_fragments options (option ∷ selected) = do
  by_id ← select_by_id [] (option ∷ selected)
  collected ← collect_fragments options by_id
  all_taken collected

unfoldable pub validate_selected_options :
    Target → List SelectedOption → Result OptionProblem (Unit {0})
unfolding selected_option_fragments
validate_selected_options target selected = do
  _ ← selected_option_fragments target.options selected
  ok tt

unfoldable pub append_cmdline : String → String → String
unfolding trim_space
append_cmdline base extra =
    let b = trim_space base in
    let e = trim_space extra in
    if is_empty b then e else if is_empty e then b else String.◌++◌ b (String.◌++◌ " " e)

unfoldable pub apply_selected_options :
    BootPlan → List SelectedOption → Result OptionProblem BootPlan
unfolding selected_option_fragments resolved_action append_cmdline join
apply_selected_options plan selected = do
  fragments ← selected_option_fragments plan.target.options selected
  ok (
      if resolved_action plan == freebsd_kboot
      then record plan {
        freebsd_kboot = record (plan.freebsd_kboot) { args = plan.freebsd_kboot.args ++ fragments };
      }
      else record plan { cmdline = append_cmdline plan.cmdline (join fragments " ") })
