-- ===== src/Edit/SingleColumn.antt =====
-- src/editformats/single-column.c: the old and the new name on two lines.
pub mod RoundTrip
use renameutils.Common.{
  ℕ, Bool, true, false, ◌&&◌, not, List, [], ◌∷◌, ◌++◌, Option, none, some, if◌then◌else◌, Bytes,
  length, drop, str_eq,
}
use renameutils.StringUtils.{newline, chomp, starts_with}
use renameutils.Quote.{quote_output_file, dequote_output_file}
use renameutils.Plan.{FileSpec}
use renameutils.Edit.{
  Suboption, unknown, found, Ending, finished, refused, crashed, read_line, has_more,
  skip_separator,
}

pub record Options : Type 0 where
  pub swap : Bool
  pub separate : Bool
  pub indicator1 : Bytes
  pub indicator2 : Bytes

abbrev pub reset_options : Options
reset_options = record { swap = false; separate = false; indicator1 = []; indicator2 = [] }

pub data OptionName : Type 0 where
  help_opt : OptionName
  swap_opt : OptionName
  separate_opt : OptionName
  indicator1_opt : OptionName
  indicator2_opt : OptionName

-- `none` where a value is missing or not wanted.
abbrev pub set_option : OptionName → Option Bytes → Options → Option Options
set_option swap_opt none o = some (record o { swap = true })
set_option separate_opt none o = some (record o { separate = true })
set_option indicator1_opt (some value) o = some (record o { indicator1 = value })
set_option indicator2_opt (some value) o = some (record o { indicator2 = value })
set_option c value o = none

-- The options are reset where a suboption is refused, but not where `help` ends the loop.
unfoldable pub parse_from : List (Suboption OptionName) → Options → Bool × Options
parse_from [] o = (true, o)
parse_from (unknown ∷ options) o = (false, reset_options)
parse_from (found help_opt value ∷ options) o = (false, o)
parse_from (found c value ∷ options) o = elim (set_option c value o) [
  | none ↦ (false, reset_options)
  | some o' ↦ parse_from options o'
]

unfoldable pub parse_options : List (Suboption OptionName) → Bool × Options
parse_options options = parse_from options reset_options

module _ (is_print : ℕ → Bool) (o : Options) where
  unfoldable pub output : List FileSpec → Bytes
  output [] = []
  output (spec ∷ files) =
      let rest = output files in
      (o.indicator1 ++ quote_output_file is_print spec.old_name)
      ++ newline
        ∷ ((o.indicator2 ++ quote_output_file is_print spec.new_name)
            ++ newline ∷ (if o.separate && has_more files then newline ∷ rest else rest))

-- The end of the loop's body, from the comparison with `spec->old_name`. A name is a pointer.
unfoldable pub update_spec : FileSpec → Option Bytes → Option Bytes → Option FileSpec
update_spec spec none file_new = none
update_spec spec (some file_old) file_new =
    if str_eq file_old spec.old_name
    then elim file_new [
      | none ↦ none
      | some name ↦ elim name [ [] ↦ some spec | ◌∷◌ c s ↦ some (record spec { new_name = c ∷ s }) ]
    ]
    else some spec

-- A spec's two lines, without their newlines.
unfoldable pub take_lines : Options → FileSpec → Bytes → Bytes → Ending × FileSpec
take_lines o spec line1 line2 =
    if starts_with line1 o.indicator1
    then if starts_with line2 o.indicator2
      then (let first = dequote_output_file (drop (length o.indicator1) line1) in
          let second = dequote_output_file (drop (length o.indicator2) line2) in
          elim (if o.swap then update_spec spec second first else update_spec spec first second) [
            | none ↦ (crashed, spec)
            | some spec' ↦ (finished, spec')
          ])
      else (refused, spec)
    else (refused, spec)

-- The body of the loop: what is left of the stream, where the loop goes on.
unfoldable pub input_spec : Options → Bool → FileSpec → Bytes → Ending × FileSpec × Bytes
input_spec o more spec text = elim (read_line text) [
  | none ↦ (refused, spec, text)
  | some (line1, text1) ↦ elim (read_line text1) [
    | none ↦ (refused, spec, text1)
    | some (line2, text2) ↦ elim (skip_separator (o.separate && more) text2) [
      | none ↦ (refused, spec, text2)
      | some text3 ↦
          let (ending, spec') = take_lines o spec (chomp line1) (chomp line2) in
          (ending, spec', text3)
    ]
  ]
]

-- The specs as they are left, also where the loop ends early.
unfoldable pub input : Options → List FileSpec → Bytes → Ending × List FileSpec × Bytes
input o [] text = (finished, [], text)
input o (spec ∷ files) text =
    let (ending, spec', text') = input_spec o (has_more files) spec text in
    let (ending', files', text'') = input o files text' in
    elim ending [
      | finished ↦ (ending', spec' ∷ files', text'')
      | refused ↦ (refused, spec' ∷ files, text')
      | crashed ↦ (crashed, spec' ∷ files, text')
    ]
