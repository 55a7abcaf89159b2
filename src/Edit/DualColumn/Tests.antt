-- ===== src/Edit/DualColumn/Tests.antt =====
-- Runs of the dual-column format, and its theorems at concrete options.
use renameutils.Common.{
  ℕ, Bool, false, ◌&&◌, List, [], ◌∷◌, ◌++◌, none, some, ◌≡◌, refl, arith, leb, Bytes, codes,
  length, ◌≤◌, str_eq,
}
use renameutils.StringUtils.{
  newline, strindex, chomp, starts_with, is_listed, string_strip_trailing, strip_from_end,
}
use renameutils.TabUtils.{tab_index, tab_index_from}
use renameutils.IntUtil.{parse_unsigned, parse_digits}
use renameutils.Quote.{quote_output_file, dequote_output_file}
use renameutils.Plan.{FileSpec, unchecked}
use renameutils.Edit.{Suboption, found, finished, read_line}
use renameutils.Edit.DualColumn.{
  Options, reset_options, OptionName, width_opt, swap_opt, help_opt, parse_options, parse_from,
  set_option, quote_first_last, output, input, read_unread_line, input_each, input_spec,
  input_names, blank_to, process_single_line, process_dual_line, cut_drop, old_part, compare_names,
  skip_empty,
}
use renameutils.Edit.DualColumn.Reading.{old_names, input_lem}
use renameutils.Edit.DualColumn.Suboptions.{from_bad, EndsAt, parse_options_lem}
use renameutils.Edit.DualColumn.Columns.{output-quote_first_last}

abbrev printable : ℕ → Bool
printable c = leb 32 c && leb c 126

abbrev spec_of : Bytes → Bytes → FileSpec
spec_of old new = record {
  old_name = old;
  new_name = new;
  prev_spec = none;
  next_spec = none;
  status = unchecked;
}

abbrev narrow : Options
narrow = record reset_options { width = 4; indicator1 = codes ">" }

abbrev suboptions : List (Suboption OptionName)
suboptions = found swap_opt none ∷ found width_opt (some (codes "70000")) ∷ found help_opt none ∷ []

parse_options_lem_example : EndsAt (from_bad suboptions) (parse_options suboptions)
parse_options_lem_example = parse_options_lem suboptions

-- `help` behind the failure is not looked at.
parse_options_run :
    parse_options (found width_opt (some (codes "x")) ∷ found help_opt none ∷ [])
    ≡ (false, reset_options)
unfolding parse_options parse_from set_option parse_unsigned parse_digits
parse_options_run = refl

abbrev wide : FileSpec
wide = spec_of (codes "abcdef") (codes "c")

wide_long : 4 ≤ length (quote_first_last 4 8 (quote_output_file printable (codes "abcdef")))
unfolding quote_first_last quote_output_file
wide_long = ground arith

output-quote_first_last_example :
    (output printable narrow (wide ∷ [])).0
    ≡ narrow.indicator1
      ++ quote_first_last 4 8 (quote_output_file printable (codes "abcdef"))
      ++ narrow.indicator2
      ++ quote_output_file printable (codes "c")
      ++ newline ∷ []
output-quote_first_last_example =
    output-quote_first_last printable narrow wide refl refl (ground arith) wide_long

abbrev two_columns : Bytes
two_columns = codes "a   new\nverylong\n    other\n"

abbrev files : List FileSpec
files = spec_of (codes "a") (codes "a") ∷ spec_of (codes "verylong") (codes "verylong") ∷ []

abbrev edited : List FileSpec
edited = spec_of (codes "a") (codes "b") ∷ spec_of (codes "verylong") (codes "c") ∷ []

input_run :
    ((input reset_options 4 files two_columns).0 ≡ finished)
    × ((input reset_options 4 edited two_columns).0 ≡ finished)
    × ((input reset_options 4 files two_columns).1 ≡ some (codes "new") ∷ some (codes "other") ∷ [])
unfolding input input_each input_spec read_unread_line read_line input_names blank_to tab_index
    tab_index_from process_single_line process_dual_line starts_with chomp string_strip_trailing
    strip_from_end is_listed strindex cut_drop old_part compare_names skip_empty dequote_output_file
    str_eq
input_run = (refl, refl, refl)

-- A new name that is not well-formed is NULL, and `input` succeeds.
null_name_run :
    (input reset_options 4 (spec_of (codes "a") (codes "a") ∷ []) (codes "a   b\\")).0 ≡ finished
unfolding input input_each input_spec read_unread_line read_line input_names blank_to tab_index
    tab_index_from process_single_line starts_with chomp string_strip_trailing strip_from_end
    is_listed strindex cut_drop old_part compare_names skip_empty dequote_output_file str_eq
null_name_run = refl

input_lem_example :
    (old_names files ≡ old_names edited)
    × ((input reset_options 4 files two_columns).1 ≡ (input reset_options 4 edited two_columns).1)
    × (read_unread_line (input reset_options 4 files two_columns).2 ≡ none)
input_lem_example = input_lem reset_options 4 files edited two_columns refl input_run.0 input_run.1
