-- ===== src/Provider/Options.antt =====
-- The options of a target, as the provider declares them: `validateTargetOptions` and what it
-- calls. A set `seen` is the list of its keys.
pub mod Laws
use bootup.Common.{
  Bool, List, Result, String, [], code, contains, eqb, err, false, if◌then◌else◌, is_nil, leb, not,
  ok, refuse_if, true, ℕ, ◌&&◌, ◌==◌, ◌>>=◌, ◌>>◌, ◌||◌, ◌∷◌,
}
use bootup.Text.{
  contains_func, count_parts, has_margin, has_part, is_blank, is_control, is_empty, is_space,
}
use bootup.Provider.{
  TargetOption, TargetOptionValue, TargetProblem, fragment_control, fragment_empty, fragment_spaces,
  fragment_template, option_fields, option_id_duplicate, option_id_empty, option_id_invalid,
  option_label_empty, option_secret, option_type_empty, option_type_invalid, template_control,
  template_count, template_empty, template_spaces, value_duplicate, value_empty, value_invalid,
  value_label_spaces, value_none,
}

abbrev pub bool_type : String
bool_type = "bool"

abbrev pub enum_type : String
enum_type = "enum"

abbrev pub string_type : String
string_type = "string"

abbrev pub placeholder : String
placeholder = "{value}"

-- a rune that may stand in an ID, first or not
abbrev is_id_rune : Bool → ℕ → Bool
is_id_rune first r =
    (leb b'a' r && leb r b'z')
    || (leb b'0' r && leb r b'9' && not first)
    || ((eqb r b'-' || eqb r b'_' || eqb r b'.') && not first)

-- the loop of `validOptionID`; the flag is `index == 0`
unfoldable pub valid_id_from : Bool → String → Bool
valid_id_from first String.[] = true
valid_id_from first (String.◌∷◌ c s) = is_id_rune first (code c) && valid_id_from false s

unfoldable pub valid_option_id : String → Bool
unfolding valid_id_from
valid_option_id id = valid_id_from true id

unfoldable pub contains_space_or_control : String → Bool
contains_space_or_control value = contains_func (λ r. is_space r || is_control r) value

unfoldable pub contains_control : String → Bool
contains_control value = contains_func is_control value

unfoldable pub validate_cmdline_fragment : String → Bool → Result TargetProblem (Unit {0})
unfolding has_part contains_control
validate_cmdline_fragment fragment required =
    if is_empty fragment then refuse_if required fragment_empty else do
      refuse_if (has_margin fragment) fragment_spaces
      refuse_if (has_part fragment placeholder) fragment_template
      refuse_if (contains_control fragment) fragment_control

unfoldable pub validate_cmdline_template : String → Result TargetProblem (Unit {0})
unfolding count_parts contains_control
validate_cmdline_template template = do
  refuse_if (is_blank template) template_empty
  refuse_if (has_margin template) template_spaces
  refuse_if (not (eqb (count_parts template placeholder) 1)) template_count
  refuse_if (contains_control template) template_control

-- the loop of `validateOptionValues`
unfoldable pub validate_values_from :
    List String → List TargetOptionValue → Result TargetProblem (Unit {0})
unfolding validate_cmdline_fragment contains_space_or_control
validate_values_from seen [] = ok tt
validate_values_from seen (value ∷ values) = do
  refuse_if (is_blank value.value) value_empty
  refuse_if (has_margin value.value || contains_space_or_control value.value) value_invalid
  refuse_if (contains value.value seen) value_duplicate
  refuse_if (has_margin value.label) value_label_spaces
  validate_cmdline_fragment value.fragment false
  validate_values_from (value.value ∷ seen) values

unfoldable pub validate_option_values : TargetOption → Result TargetProblem (Unit {0})
unfolding validate_values_from
validate_option_values option = do
  refuse_if (is_nil option.values) value_none
  validate_values_from [] option.values

unfoldable pub validate_target_option_behavior : TargetOption → Result TargetProblem (Unit {0})
unfolding validate_option_values validate_cmdline_template
validate_target_option_behavior option =
    if option.type == bool_type
    then (do
      refuse_if (not (is_nil option.values) || not (is_empty option.template)) option_fields
      validate_cmdline_fragment option.fragment true)
    else if option.type == enum_type
    then (do
      refuse_if (not (is_empty option.fragment) || not (is_empty option.template)) option_fields
      validate_option_values option)
    else if option.type == string_type
    then (do
      refuse_if (not (is_empty option.fragment) || not (is_nil option.values)) option_fields
      validate_cmdline_template option.template)
    else if is_empty option.type
    then err option_type_empty
    else err option_type_invalid

-- the body of the loop of `validateTargetOptions`
unfoldable pub validate_target_option : List String → TargetOption → Result TargetProblem (Unit {0})
unfolding valid_option_id validate_target_option_behavior
validate_target_option seen option = do
  refuse_if (is_blank option.id) option_id_empty
  refuse_if (not (valid_option_id option.id)) option_id_invalid
  refuse_if (contains option.id seen) option_id_duplicate
  refuse_if (is_blank option.label) option_label_empty
  refuse_if option.secret option_secret
  validate_target_option_behavior option

unfoldable pub validate_options_from :
    List String → List TargetOption → Result TargetProblem (Unit {0})
unfolding validate_target_option
validate_options_from seen [] = ok tt
validate_options_from seen (option ∷ options) = do
  validate_target_option seen option
  validate_options_from (option.id ∷ seen) options

unfoldable pub validate_target_options : List TargetOption → Result TargetProblem (Unit {0})
unfolding validate_options_from
validate_target_options options = validate_options_from [] options
