-- ===== src/Provider/Options/Laws.antt =====
-- What accepted option declarations promise: IDs of the grammar, each once, and fragments that
-- can stand in a kernel command line.
use bootup.Common.{
  All, Bool, Distinct, Fresh, Fresh-Distinct, List, String, [], arith, code, contains, eq_iff,
  false, ok, true, ℕ, ◌==◌, ◌∷◌, ◌≡◌, ◌≤◌, ◌⊎◌,
}
use bootup.Text.{
  Every, Every-of_contains_func, count_parts, has_margin, has_part, is_blank, is_control, is_empty,
  trim_space,
}
use bootup.Provider.Options.{
  bool_type, contains_control, enum_type, is_id_rune, placeholder, string_type, valid_id_from,
  valid_option_id, validate_cmdline_fragment, validate_cmdline_template, validate_option_values,
  validate_options_from, validate_target_option, validate_target_option_behavior,
  validate_target_options, validate_values_from,
}
use bootup.Provider.{TargetOption, TargetOptionValue}

abbrev pub IsLower : ℕ → Type 0
IsLower r = (b'a' ≤ r) × (r ≤ b'z')

abbrev pub IsIdRune : ℕ → Type 0
IsIdRune r = IsLower r ⊎ ((b'0' ≤ r) × (r ≤ b'9')) ⊎ (r ≡ b'-') ⊎ (r ≡ b'_') ⊎ (r ≡ b'.')

-- A lower-case letter, then letters, digits and "-", "_", ".".
abbrev pub IsOptionId : String → Type 0
IsOptionId String.[] = ⊥
IsOptionId (String.◌∷◌ c s) = IsLower (code c) × Every IsIdRune s

id_rune_first : (r : ℕ) → is_id_rune true r ≡ true → IsLower r
id_rune_first r h = ground arith

id_rune : (r : ℕ) → is_id_rune false r ≡ true → IsIdRune r
id_rune r h = ground arith

valid_id_rest : (s : String) → valid_id_from false s ≡ true → Every IsIdRune s
unfolding valid_id_from
valid_id_rest String.[] h = tt
valid_id_rest (String.◌∷◌ c s) h = (id_rune (code c) (ground arith), valid_id_rest s (ground arith))

pub valid_option_id-IsOptionId :
    (id : String) → is_blank id ≡ false → valid_option_id id ≡ true → IsOptionId id
unfolding valid_option_id valid_id_from
valid_option_id-IsOptionId String.[] b h = unfold trim_space in cc
valid_option_id-IsOptionId (String.◌∷◌ c s) b h =
    (id_rune_first (code c) (ground arith), valid_id_rest s (ground arith))

-- A part of a command line: not empty, no white space at its ends, no placeholder, no control
-- character.
pub record IsFragment (fragment : String) : Type 0 where
  pub not_empty : is_empty fragment ≡ false
  pub margin : has_margin fragment ≡ false
  pub plain : has_part fragment placeholder ≡ false
  pub printable : Every (λ r. is_control r ≡ false) fragment

pub validate_cmdline_fragment-IsFragment :
    (fragment : String) (required : Bool)
    → validate_cmdline_fragment fragment required ≡ ok tt
    → is_empty fragment ≡ false
    → IsFragment fragment
unfolding validate_cmdline_fragment contains_control
validate_cmdline_fragment-IsFragment fragment required h full = record {
  not_empty = full;
  margin = ground arith;
  plain = ground arith;
  printable = Every-of_contains_func is_control fragment (ground arith);
}

pub validate_cmdline_fragment-required :
    (fragment : String)
    → validate_cmdline_fragment fragment true ≡ ok tt
    → is_empty fragment ≡ false
unfolding validate_cmdline_fragment
validate_cmdline_fragment-required fragment h = ground arith

-- What an option declares can only give fragments, or nothing.
abbrev pub AreFragments : List TargetOptionValue → Type 0
AreFragments = All (λ v. is_empty v.fragment ≡ false → IsFragment v.fragment)

abbrev pub value_texts : List TargetOptionValue → List String
value_texts [] = []
value_texts (v ∷ values) = v.value ∷ value_texts values

-- What an accepted option promises, for each of the three types.
pub record IsSafeOption (option : TargetOption) : Type 0 where
  pub id : IsOptionId option.id
  pub bool_fragment : (option.type == bool_type) ≡ true → IsFragment option.fragment
  pub enum_fragments : (option.type == enum_type) ≡ true → AreFragments option.values
  pub enum_values : (option.type == enum_type) ≡ true → Distinct (value_texts option.values)
  pub one_placeholder :
      (option.type == bool_type) ≡ false
      → (option.type == enum_type) ≡ false
      → ((option.type == string_type) ≡ true)
        × (count_parts option.template placeholder ≡ 1)
        × Every (λ r. is_control r ≡ false) option.template

values_from-AreFragments :
    (seen : List String) (values : List TargetOptionValue)
    → validate_values_from seen values ≡ ok tt
    → AreFragments values
unfolding validate_values_from
values_from-AreFragments seen [] h = tt
values_from-AreFragments seen (v ∷ values) h = (
  validate_cmdline_fragment-IsFragment v.fragment false (ground arith),
  values_from-AreFragments (v.value ∷ seen) values (ground arith),
)

values_from-Fresh :
    (seen : List String) (values : List TargetOptionValue)
    → validate_values_from seen values ≡ ok tt
    → Fresh seen (value_texts values)
unfolding validate_values_from
values_from-Fresh seen [] h = tt
values_from-Fresh seen (v ∷ values) h =
    (ground arith, values_from-Fresh (v.value ∷ seen) values (ground arith))

module _ (seen : List String) (option : TargetOption)
    (accepted : validate_target_option seen option ≡ ok tt) where
  behavior : validate_target_option_behavior option ≡ ok tt
  unfolding validate_target_option
  behavior = ground arith

  option_checks :
      (is_blank option.id ≡ false)
      × (valid_option_id option.id ≡ true)
      × (contains option.id seen ≡ false)
  unfolding validate_target_option
  option_checks = (ground arith, ground arith, ground arith)

  bool_checks :
      (option.type == bool_type) ≡ true → validate_cmdline_fragment option.fragment true ≡ ok tt
  unfolding validate_target_option_behavior
  bool_checks h = ground (arith, behavior)

  enum_checks : (option.type == enum_type) ≡ true → validate_values_from [] option.values ≡ ok tt
  unfolding validate_target_option_behavior validate_option_values
  enum_checks h = ground (arith, behavior, eq_iff option.type enum_type)

  string_checks :
      (option.type == bool_type) ≡ false
      → (option.type == enum_type) ≡ false
      → ((option.type == string_type) ≡ true)
        × (count_parts option.template placeholder ≡ 1)
        × (contains_control option.template ≡ false)
  unfolding validate_target_option_behavior validate_cmdline_template
  string_checks h k = (ground (arith, behavior), ground (arith, behavior), ground (arith, behavior))

  option-IsSafe : IsSafeOption option
  option-IsSafe =
      let (inked, grammar, _) = option_checks in
      record {
        id = valid_option_id-IsOptionId option.id inked grammar;
        bool_fragment = λ h.
            let accepted = bool_checks h in
            validate_cmdline_fragment-IsFragment option.fragment true accepted
              (validate_cmdline_fragment-required option.fragment accepted);
        enum_fragments = λ h. values_from-AreFragments [] option.values (enum_checks h);
        enum_values = λ h. Fresh-Distinct [] _ (values_from-Fresh [] option.values (enum_checks h));
        one_placeholder = λ h k.
            let (text, one, printable) = string_checks h k in
            (
              text,
              one,
              unfold contains_control in
                  Every-of_contains_func is_control option.template printable,
            );
      }

abbrev pub option_ids : List TargetOption → List String
option_ids [] = []
option_ids (option ∷ options) = option.id ∷ option_ids options

options_from_sound :
    (seen : List String) (options : List TargetOption)
    → validate_options_from seen options ≡ ok tt
    → All IsSafeOption options × Fresh seen (option_ids options)
unfolding validate_options_from
options_from_sound seen [] h = (tt, tt)
options_from_sound seen (option ∷ options) h =
    let accepted : validate_target_option seen option ≡ ok tt = ground arith in
    let (safe, fresh) = options_from_sound (option.id ∷ seen) options (ground arith) in
    ((option-IsSafe seen option accepted, safe), ((option_checks seen option accepted).2, fresh))

-- Accepted options have distinct IDs of the grammar, and each can only give fragments of its
-- type: a fixed one, one of distinct values, or one placeholder in a template that has no control
-- character.
pub validate_target_options_sound :
    (options : List TargetOption)
    → validate_target_options options ≡ ok tt
    → All IsSafeOption options × Distinct (option_ids options)
unfolding validate_target_options
validate_target_options_sound options h =
    let (safe, fresh) = options_from_sound [] options h in
    (safe, Fresh-Distinct [] (option_ids options) fresh)
