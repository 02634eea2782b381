-- ===== src/Provider/Fragments/CommandLine.antt =====
-- `ApplySelectedOptions`: what becomes of the command line.
use text.Mathlib.TextLemmas.{cons-append, nil-append}
use Prim.Native.String
use Prim.Native.String.{[], ◌∷◌}
use bootup.Text.{Every, Every-trim_space, is_control, is_empty, join, join_more, trim_space}
use bootup.Provider.{BootPlan, SelectedOption, freebsd_kboot, resolved_action}
use bootup.Provider.Options.{validate_target_options}
use bootup.Provider.Options.Laws.{IsFragment}
use bootup.Provider.Fragments.{append_cmdline, apply_selected_options, selected_option_fragments}
use bootup.Provider.Fragments.Printable.{selected_option_fragments-IsFragment}
use bootup.Common.{
  >>=-eq-ok, All, Bool-cases, List, String, [], false, inl, inr, ok, refl, sym, true, ◌++◌, ◌==◌,
  ◌∷◌, ◌≡◌,
}

-- A text without control characters.
abbrev pub IsPrintable : String → Type 0
IsPrintable = Every (λ r. is_control r ≡ false)

IsPrintable-append : (s t : String) → IsPrintable s → IsPrintable t → IsPrintable (String.◌++◌ s t)
IsPrintable-append [] t h k = rw (nil-append t) k
IsPrintable-append (c ∷ s) t h k = rw (cons-append c s t) (h.0, IsPrintable-append s t h.1 k)

IsPrintable-space : (s : String) → IsPrintable s → IsPrintable (String.◌++◌ " " s)
unfolding is_control
IsPrintable-space s h = IsPrintable-append " " s (refl, tt) h

IsPrintable-join_more :
    (fragments : List String) → All IsFragment fragments → IsPrintable (join_more " " fragments)
unfolding join_more
IsPrintable-join_more List.[] h = tt
IsPrintable-join_more (List.◌∷◌ f fragments) h =
    IsPrintable-space (String.◌++◌ f (join_more " " fragments)) (
      IsPrintable-append f (join_more " " fragments) (h.0).printable
        (IsPrintable-join_more fragments h.1))

IsPrintable-join :
    (fragments : List String) → All IsFragment fragments → IsPrintable (join fragments " ")
unfolding join
IsPrintable-join List.[] h = tt
IsPrintable-join (List.◌∷◌ f fragments) h =
    IsPrintable-append f (join_more " " fragments) (h.0).printable
      (IsPrintable-join_more fragments h.1)

IsPrintable-append_cmdline :
    (base extra : String)
    → IsPrintable base
    → IsPrintable extra
    → IsPrintable (append_cmdline base extra)
unfolding append_cmdline
IsPrintable-append_cmdline base extra h k =
    let b = Every-trim_space (λ r. is_control r ≡ false) base h in
    let e = Every-trim_space (λ r. is_control r ≡ false) extra k in
    elim (Bool-cases (is_empty (trim_space base))) [
      | inl bare ↦ rw bare e
      | inr full ↦ elim (Bool-cases (is_empty (trim_space extra))) [
        | inl none_left ↦ rw (full, none_left) b
        | inr more ↦
            rw (full, more)
              (IsPrintable-append (trim_space base) (String.◌++◌ " " (trim_space extra)) b
                (IsPrintable-space (trim_space extra) e))
      ]
    ]

-- A command line that is extended: the trimmed texts with a space between them, where neither is
-- blank, and otherwise the other one.
pub data IsExtended (base extra : String) : String → Type 0 where
  blank_base : is_empty (trim_space base) ≡ true → IsExtended base extra (trim_space extra)
  blank_extra : is_empty (trim_space extra) ≡ true → IsExtended base extra (trim_space base)
  joined :
      is_empty (trim_space base) ≡ false
      → is_empty (trim_space extra) ≡ false
      → IsExtended base extra (String.◌++◌ (trim_space base) (String.◌++◌ " " (trim_space extra)))

append_cmdline-IsExtended :
    (base extra : String) → IsExtended base extra (append_cmdline base extra)
unfolding append_cmdline
append_cmdline-IsExtended base extra = elim (Bool-cases (is_empty (trim_space base))) [
  | inl bare ↦ rw bare (blank_base bare)
  | inr full ↦ elim (Bool-cases (is_empty (trim_space extra))) [
    | inl none_left ↦ rw (full, none_left) (blank_extra none_left)
    | inr more ↦ rw (full, more) (joined full more)
  ]
]

-- What is known of a plan with applied options. The fragments are those of the selection. They
-- stand behind the arguments of a FreeBSD plan, which is otherwise as it was; any other plan is as
-- it was but for its command line, which they extend and which has no control characters.
pub record IsApplied (plan : BootPlan) (selected : List SelectedOption) (result : BootPlan)
    : Type 0 where
  pub fragments : List String
  pub chosen : selected_option_fragments plan.target.options selected ≡ ok fragments
  pub printable : All IsFragment fragments
  pub freebsd :
      (resolved_action plan == freebsd_kboot) ≡ true
      → result ≡ record plan {
        freebsd_kboot = record (plan.freebsd_kboot) { args = plan.freebsd_kboot.args ++ fragments };
      }
  pub others :
      (resolved_action plan == freebsd_kboot) ≡ false
      → (result ≡ record plan { cmdline = result.cmdline })
        × IsExtended plan.cmdline (join fragments " ") result.cmdline
        × IsPrintable result.cmdline

-- Options of a plan whose target has accepted options, and whose command line has no control
-- character, are applied: the fragments of the selection, each of which can stand in a command
-- line, are put behind the arguments of a FreeBSD plan, and extend the command line of any other,
-- which still has no control character; nothing else of the plan changes.
pub apply_selected_options-IsApplied :
    (plan : BootPlan) (selected : List SelectedOption) (result : BootPlan)
    → validate_target_options plan.target.options ≡ ok tt
    → IsPrintable plan.cmdline
    → apply_selected_options plan selected ≡ ok result
    → IsApplied plan selected result
unfolding apply_selected_options
apply_selected_options-IsApplied plan selected result accepted clear h =
    let (fragments, made, same) =
      >>=-eq-ok (selected_option_fragments plan.target.options selected) _ h in
    let printable =
      selected_option_fragments-IsFragment plan.target.options selected fragments accepted made in
    let line = append_cmdline plan.cmdline (join fragments " ") in
    record {
      fragments = fragments;
      chosen = made;
      printable = printable;
      freebsd = λ kboot.
          let is_result : record plan {
            freebsd_kboot = record (plan.freebsd_kboot) {
              args = plan.freebsd_kboot.args ++ fragments;
            };
          }
              ≡ result =
            cc (rw kboot at same) in
          sym is_result;
      others = λ other.
          let is_result : record plan { cmdline = line } ≡ result = cc (rw other at same) in
          rw (← is_result) (
            refl,
            append_cmdline-IsExtended plan.cmdline (join fragments " "),
            IsPrintable-append_cmdline plan.cmdline (join fragments " ") clear
                (IsPrintable-join fragments printable),
          );
    }
