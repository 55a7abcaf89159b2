-- ===== src/Edit/DestinationOnly.antt =====
-- src/editformats/destination-only.c: the new names alone.
pub mod RoundTrip
use renameutils.Common.{
  Bool, true, false, ◌&&◌, List, [], ◌∷◌, ◌++◌, Option, none, some, if◌then◌else◌, Bytes, ℕ,
}
use renameutils.StringUtils.{newline, chomp}
use renameutils.Quote.{quote_output_file, dequote_output_file}
use renameutils.Plan.{FileSpec}
use renameutils.Edit.{
  Suboption, unknown, found, Ending, finished, refused, crashed, read_line, has_more,
  skip_separator,
}

pub data OptionName : Type 0 where
  help_opt : OptionName
  separate_opt : OptionName

abbrev pub reset_options : Bool
reset_options = false

-- The result, and `separate`.
unfoldable pub parse_from : List (Suboption OptionName) → Bool → Bool × Bool
parse_from [] separate = (true, separate)
parse_from (unknown ∷ options) separate = (false, reset_options)
parse_from (found help_opt value ∷ options) separate = (false, separate)
parse_from (found separate_opt (some value) ∷ options) separate = (false, reset_options)
parse_from (found separate_opt none ∷ options) separate = parse_from options true

unfoldable pub parse_options : List (Suboption OptionName) → Bool × Bool
parse_options options = parse_from options reset_options

unfoldable pub output : (ℕ → Bool) → Bool → List FileSpec → Bytes
output is_print separate [] = []
output is_print separate (spec ∷ files) =
    let rest = output is_print separate files in
    quote_output_file is_print spec.new_name
    ++ newline ∷ (if separate && has_more files then newline ∷ rest else rest)

-- The end of the loop's body: `none` where it reads the first byte of a null pointer.
unfoldable pub update_spec : FileSpec → Option Bytes → Option FileSpec
update_spec spec none = none
update_spec spec (some []) = some spec
update_spec spec (some (c ∷ s)) = some (record spec { new_name = c ∷ s })

unfoldable pub input_spec : Bool → Bool → FileSpec → Bytes → Ending × FileSpec × Bytes
input_spec separate more spec text = elim (read_line text) [
  | none ↦ (refused, spec, text)
  | some (line, text1) ↦ elim (skip_separator (separate && more) text1) [
    | none ↦ (refused, spec, text1)
    | some text2 ↦ elim (update_spec spec (dequote_output_file (chomp line))) [
      | none ↦ (crashed, spec, text2)
      | some spec' ↦ (finished, spec', text2)
    ]
  ]
]

unfoldable pub input : Bool → List FileSpec → Bytes → Ending × List FileSpec × Bytes
input separate [] text = (finished, [], text)
input separate (spec ∷ files) text =
    let (ending, spec', text') = input_spec separate (has_more files) spec text in
    let (ending', files', text'') = input separate files text' in
    elim ending [
      | finished ↦ (ending', spec' ∷ files', text'')
      | refused ↦ (refused, spec' ∷ files, text')
      | crashed ↦ (crashed, spec' ∷ files, text')
    ]
