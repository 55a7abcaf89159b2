-- ===== src/Edit/DualColumn/Suboptions.antt =====
-- What `parse_options` of the dual-column format accepts.
use renameutils.Common.{
  arith, Bool, true, false, List, [], ◌∷◌, Option, none, some, ◌≡◌, ℕ, refl, Bytes,
}
use renameutils.IntUtil.{parse_uint16}
use renameutils.Edit.{Suboption, unknown, found}
use renameutils.Edit.DualColumn.{
  Options, reset_options, OptionName, help_opt, swap_opt, separate_opt, spaces_opt, tabsize_opt,
  width_opt, autowidth_opt, indicator1_opt, indicator2_opt, set_option, parse_from, parse_options,
}

-- The values that the suboptions take: none, a number of 16 bits or any text.
abbrev is_number : Bytes → Bool
is_number value = elim (parse_uint16 value) [ none ↦ false | some n ↦ true ]

abbrev takes : OptionName → Option Bytes → Bool
takes tabsize_opt (some value) = is_number value
takes width_opt (some value) = is_number value
takes indicator1_opt (some value) = true
takes indicator2_opt (some value) = true
takes swap_opt none = true
takes separate_opt none = true
takes spaces_opt none = true
takes autowidth_opt none = true
takes c value = false

abbrev pub is_good : Suboption OptionName → Bool
is_good unknown = false
is_good (found c value) = takes c value

-- The suboptions from the first one on that is not good.
abbrev pub from_bad : List (Suboption OptionName) → List (Suboption OptionName)
from_bad [] = []
from_bad (option ∷ options) = elim (is_good option) [
  | true ↦ from_bad options
  | false ↦ option ∷ options
]

-- How the parsing ends there: well at the end, and without a success at `help`; any other suboption
-- resets the options.
abbrev pub EndsAt : List (Suboption OptionName) → Bool × Options → Type 0
EndsAt [] r = r.0 ≡ true
EndsAt (found help_opt value ∷ options) r = r.0 ≡ false
EndsAt (option ∷ options) r = r ≡ (false, reset_options)

abbrev is_set : Option Options → Bool
is_set none = false
is_set (some o) = true

number_set :
    (f : ℕ → Options) (number : Option ℕ)
    → is_set (elim number [ none ↦ none | some n ↦ some (f n) ])
      ≡ elim number [ none ↦ false | some n ↦ true ]
number_set f none = refl
number_set f (some n) = refl

is_set-set_option :
    (c : OptionName) (value : Option Bytes) (o : Options)
    → is_set (set_option c value o) ≡ takes c value
unfolding set_option
is_set-set_option tabsize_opt (some value) o =
    number_set (λ n. record o { tabsize = n }) (parse_uint16 value)
is_set-set_option width_opt (some value) o =
    number_set (λ n. record o { width = n; autowidth = false }) (parse_uint16 value)
is_set-set_option swap_opt none o = refl
is_set-set_option separate_opt none o = refl
is_set-set_option spaces_opt none o = refl
is_set-set_option autowidth_opt none o = refl
is_set-set_option indicator1_opt (some value) o = refl
is_set-set_option indicator2_opt (some value) o = refl
is_set-set_option c value o = refl

-- The loop's step at a suboption that is refused where its result is `none`.
step_cases :
    (option : Suboption OptionName) (options : List (Suboption OptionName)) (good : Bool)
    (result : Option Options)
    → is_set result ≡ good
    → EndsAt (option ∷ options) (false, reset_options)
    → ((o : Options) → EndsAt (from_bad options) (parse_from options o))
    → EndsAt
        (elim good as (λ x. List (Suboption OptionName)) [
          | true ↦ from_bad options
          | false ↦ option ∷ options
        ])
        (elim result as (λ x. Bool × Options) [
          | none ↦ (false, reset_options)
          | some o ↦ parse_from options o
        ])
step_cases option options true none e bad rest = absurd (ground (arith, e))
step_cases option options true (some o) e bad rest = rest o
step_cases option options false none e bad rest = bad
step_cases option options false (some o) e bad rest = absurd (ground (arith, e))

step-EndsAt :
    (c : OptionName) (value : Option Bytes) (options : List (Suboption OptionName)) (o : Options)
    → EndsAt (found c value ∷ options) (false, reset_options)
    → ((o' : Options) → EndsAt (from_bad options) (parse_from options o'))
    → EndsAt (from_bad (found c value ∷ options)) (elim (set_option c value o) [
      | none ↦ (false, reset_options)
      | some o' ↦ parse_from options o'
    ])
step-EndsAt c value options o =
    step_cases (found c value) options (takes c value) (set_option c value o)
      (is_set-set_option c value o)

parse_from-EndsAt :
    (options : List (Suboption OptionName)) (o : Options)
    → EndsAt (from_bad options) (parse_from options o)
unfolding parse_from
parse_from-EndsAt [] o = refl
parse_from-EndsAt (unknown ∷ options) o = refl
parse_from-EndsAt (found help_opt value ∷ options) o = refl
parse_from-EndsAt (found swap_opt value ∷ options) o =
    step-EndsAt swap_opt value options o refl (parse_from-EndsAt options)
parse_from-EndsAt (found separate_opt value ∷ options) o =
    step-EndsAt separate_opt value options o refl (parse_from-EndsAt options)
parse_from-EndsAt (found spaces_opt value ∷ options) o =
    step-EndsAt spaces_opt value options o refl (parse_from-EndsAt options)
parse_from-EndsAt (found tabsize_opt value ∷ options) o =
    step-EndsAt tabsize_opt value options o refl (parse_from-EndsAt options)
parse_from-EndsAt (found width_opt value ∷ options) o =
    step-EndsAt width_opt value options o refl (parse_from-EndsAt options)
parse_from-EndsAt (found autowidth_opt value ∷ options) o =
    step-EndsAt autowidth_opt value options o refl (parse_from-EndsAt options)
parse_from-EndsAt (found indicator1_opt value ∷ options) o =
    step-EndsAt indicator1_opt value options o refl (parse_from-EndsAt options)
parse_from-EndsAt (found indicator2_opt value ∷ options) o =
    step-EndsAt indicator2_opt value options o refl (parse_from-EndsAt options)

-- `parse_options` succeeds where every suboption is known and has a value just where it takes one, a
-- number of 16 bits for `tabsize` and `width`. Otherwise it fails at the first that does not: at
-- `help` it fails, and at any other it fails with the options of `reset_options`, whatever the
-- suboptions before and behind are.
pub parse_options_lem :
    (options : List (Suboption OptionName)) → EndsAt (from_bad options) (parse_options options)
unfolding parse_options
parse_options_lem options = parse_from-EndsAt options reset_options
