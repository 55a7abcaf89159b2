-- ===== src/Edit/DualColumn.antt =====
-- src/editformats/dual-column.c: the old and the new name in two columns of a line, or on two lines
-- where the old name is too long for its column.
--
-- The list of unread lines is the list of their texts. A read before the start of a line or behind
-- its end, which is outside the object, ends as `crashed`, as does the use of a null pointer. The
-- `new_name` of a spec is a pointer here, since `input` can set it to NULL and go on.
pub mod Suboptions
pub mod Columns
mod Agreement
pub mod Reading
mod Tests
use renameutils.Common.{
  ℕ, zero, suc, ◌+◌, ◌-◌, Bool, true, false, ◌&&◌, ◌||◌, not, List, [], ◌∷◌, ◌++◌, Option, none,
  some, if◌then◌else◌, ◌==◌, ltb, leb, Bytes, codes, length, take, drop, get_or, str_eq,
}
use renameutils.StringUtils.{newline, chomp, starts_with, string_strip_trailing}
use renameutils.IntUtil.{parse_uint16}
use renameutils.TabUtils.{tab, space, tab_to, tab_index}
use renameutils.Quote.{quote_output_file, dequote_output_file}
use renameutils.Plan.{FileSpec}
use renameutils.Edit.{
  Suboption, unknown, found, Ending, finished, refused, crashed, read_line, has_more,
}

pub record Options : Type 0 where
  pub width : ℕ
  pub tabsize : ℕ
  pub swap : Bool
  pub use_spaces : Bool
  pub separate : Bool
  pub autowidth : Bool
  pub indicator1 : Bytes
  pub indicator2 : Bytes

abbrev pub reset_options : Options
reset_options = record {
  width = 40;
  tabsize = 8;
  swap = false;
  use_spaces = false;
  separate = false;
  autowidth = true;
  indicator1 = [];
  indicator2 = [];
}

pub data OptionName : Type 0 where
  help_opt : OptionName
  swap_opt : OptionName
  separate_opt : OptionName
  spaces_opt : OptionName
  tabsize_opt : OptionName
  width_opt : OptionName
  autowidth_opt : OptionName
  indicator1_opt : OptionName
  indicator2_opt : OptionName

-- `none` where a value is missing, not wanted or not a number.
unfoldable pub set_option : OptionName → Option Bytes → Options → Option Options
set_option swap_opt none o = some (record o { swap = true })
set_option separate_opt none o = some (record o { separate = true })
set_option spaces_opt none o = some (record o { use_spaces = true })
set_option tabsize_opt (some value) o = elim (parse_uint16 value) [
  | none ↦ none
  | some n ↦ some (record o { tabsize = n })
]
set_option width_opt (some value) o = elim (parse_uint16 value) [
  | none ↦ none
  | some n ↦ some (record o { width = n; autowidth = false })
]
set_option autowidth_opt none o = some (record o { autowidth = true })
set_option indicator1_opt (some value) o = some (record o { indicator1 = value })
set_option indicator2_opt (some value) o = some (record o { indicator2 = value })
set_option c value o = none

-- The options are reset where a suboption is refused, but not where `help` ends the loop.
unfoldable pub parse_from : List (Suboption OptionName) → Options → Bool × Options
parse_from [] o = (true, o)
parse_from (unknown ∷ options) o = (false, reset_options)
parse_from (found help_opt value ∷ options) o = (false, o)
parse_from (found c value ∷ options) o = elim (set_option c value o) [
  | none ↦ (false, reset_options)
  | some o' ↦ parse_from options o'
]

unfoldable pub parse_options : List (Suboption OptionName) → Bool × Options
parse_options options = parse_from options reset_options

abbrev pub is_blank : ℕ → Bool
is_blank c = (c == space) || (c == tab)

-- `for (c = 0; c < d; c++) if (s[c] != ' ' && s[c] != '\t') break`, and `c == d`. The null byte is no
-- blank.
unfoldable pub blank_to : ℕ → Bytes → Bool
blank_to zero s = true
blank_to (suc d) [] = false
blank_to (suc d) (c ∷ s) = is_blank c && blank_to d s

abbrev pub backslash : ℕ
backslash = 92

-- `strbuf_insert_char` before the last character.
abbrev pub insert_before_last : Bytes → Bytes
insert_before_last s = take (length s - 1) s ++ backslash ∷ drop (length s - 1) s

-- The code reads a last character where a name has none, too; what it finds there is taken for no
-- space.
unfoldable pub quote_first_last : ℕ → ℕ → Bytes → Bytes
quote_first_last real_width tabsize old_name =
    let d = tab_index old_name real_width tabsize in
    let marked =
      if not (real_width == 0) && blank_to d old_name then backslash ∷ old_name else old_name in
    if not (real_width == 0) && (get_or old_name (length old_name - 1) 0 == space)
    then insert_before_last marked
    else marked

abbrev pub max : ℕ → ℕ → ℕ
max a b = if ltb a b then b else a

module _ (is_print : ℕ → Bool) (o : Options) where
  -- The first loop of `output`: the quoted names, and `real_width`.
  unfoldable pub prepare : List FileSpec → ℕ → List (Bytes × Bytes) × ℕ
  prepare [] real_width = ([], real_width)
  prepare (spec ∷ files) real_width =
      let old_name =
        quote_first_last real_width o.tabsize (quote_output_file is_print spec.old_name) in
      let new_name = quote_output_file is_print spec.new_name in
      let longer = max real_width (length (if o.swap then new_name else old_name) + 1) in
      let (names, end') = prepare files (if o.autowidth then longer else real_width) in
      ((old_name, new_name) ∷ names, end')

  abbrev pub tabs : ℕ → ℕ → Bytes
  tabs from to = tab_to from to (if o.use_spaces then 0 else o.tabsize)

  unfoldable pub output_names : ℕ → Bytes → Bytes → Bytes
  output_names real_width old_name new_name =
      if leb (real_width + length o.indicator1) (length old_name)
      then o.indicator1
        ++ old_name
        ++ newline ∷ tabs 0 real_width
        ++ o.indicator2
        ++ new_name
        ++ newline ∷ []
      else o.indicator1
        ++ old_name
        ++ tabs (length old_name + length o.indicator1) real_width
        ++ o.indicator2
        ++ new_name
        ++ newline ∷ []

  unfoldable pub output_each : ℕ → List (Bytes × Bytes) → Bytes
  output_each real_width [] = []
  output_each real_width ((old_name, new_name) ∷ []) = output_names real_width old_name new_name
  output_each real_width ((old_name, new_name) ∷ (names ∷ rest)) =
      output_names real_width old_name new_name
      ++ (if o.separate then newline ∷ [] else [])
      ++ output_each real_width (names ∷ rest)

  -- The text, and the `real_width` that `input` finds.
  unfoldable pub output : List FileSpec → Bytes × ℕ
  output files =
      let (names, real_width) = prepare files o.width in (output_each real_width names, real_width)

-- The unread lines, and what is left of the stream.
abbrev pub Source : Type 0
Source = List Bytes × Bytes

unfoldable pub read_unread_line : Source → Option (Bytes × Source)
read_unread_line (line ∷ lines, text) = some (line, (lines, text))
read_unread_line ([], text) = elim (read_line text) [
  | none ↦ none
  | some (line, left) ↦ some (line, ([], left))
]

abbrev pub unread_line : Bytes → Source → Source
unread_line line (lines, text) = (line ∷ lines, text)

-- From `swap_if_swap` on: the names that were read, which are pointers, and the spec's `new_name`
-- afterwards, which is null where `dequote_output_file` returned NULL for it.
unfoldable pub compare_names : FileSpec → Option Bytes → Option Bytes → Ending × Option Bytes
compare_names spec none new_name = (crashed, some spec.new_name)
compare_names spec (some old_name) new_name =
    if str_eq spec.old_name old_name then (finished, new_name) else (refused, some spec.new_name)

-- The specs' pointers as they are before `input`.
abbrev pub new_names : List FileSpec → List (Option Bytes)
new_names [] = []
new_names (spec ∷ files) = some spec.new_name ∷ new_names files

module _ (o : Options) (real_width : ℕ) where
  abbrev pub swap_names : FileSpec → Option Bytes → Option Bytes → Ending × Option Bytes
  swap_names spec old_name new_name =
      if o.swap then compare_names spec new_name old_name else compare_names spec old_name new_name

  unfoldable pub process_dual_line : FileSpec → Bytes → Bytes → Ending × Option Bytes
  process_dual_line spec line1 line2 =
      let first = chomp line1 in
      let second = chomp line2 in
      let d = tab_index second real_width o.tabsize in
      if not (starts_with line1 o.indicator1)
      then (refused, some spec.new_name)
      else elim (dequote_output_file (drop (length o.indicator1) first)) [
        | none ↦ (crashed, some spec.new_name)
        | some old_name ↦
            if not (blank_to d second)
            then (refused, some spec.new_name)
            else if not (starts_with (drop d second) o.indicator2)
            then (refused, some spec.new_name)
            else swap_names spec (some (string_strip_trailing old_name (space ∷ tab ∷ [])).0)
                (dequote_output_file (drop (d + length o.indicator2) second))
      ]

  -- The old name's part of the line: up to the last character that is no blank, and one more behind a
  -- backslash.
  unfoldable pub old_part : Bytes → Bytes → Bytes
  old_part line stripped =
      if get_or stripped (length stripped - 1) 0 == backslash
      then take (length stripped + 1) line
      else stripped

  -- What stands at `n` after `line[length part] = '\0'`: the rest of the part, or of the line behind.
  unfoldable pub cut_drop : ℕ → Bytes → Bytes → Bytes
  cut_drop n part line = if leb n (length part) then drop n part else drop n line

  unfoldable pub process_single_line : FileSpec → Bytes → Ending × Option Bytes
  process_single_line spec line1 =
      let line = chomp line1 in
      let d = tab_index line real_width o.tabsize in
      let stripped = (string_strip_trailing (take d line) (space ∷ tab ∷ [])).0 in
      let part = old_part line stripped in
      if not (starts_with line1 o.indicator1)
      then (refused, some spec.new_name)
      else if ltb (length line1) d
      then (crashed, some spec.new_name)
      else if get_or line d 0 == 0
      then (refused, some spec.new_name)
      else if length stripped == 0
      then (crashed, some spec.new_name)
      else if length stripped == d
      then (refused, some spec.new_name)
      else if not (starts_with (cut_drop d part line) o.indicator2)
      then (refused, some spec.new_name)
      else swap_names spec (dequote_output_file (cut_drop (length o.indicator1) part line))
          (dequote_output_file (drop (length o.indicator2) (cut_drop d part line)))

  -- What a spec's one line or two lines make of its `new_name`, and what is left.
  unfoldable pub input_names : Bool → FileSpec → Bytes → Source → Ending × Option Bytes × Source
  input_names more spec line1 source = elim (read_unread_line source) [
    | none ↦
        if more
        then (refused, some spec.new_name, source)
        else (let (ending, name) = process_single_line spec line1 in (ending, name, source))
    | some (line2, left) ↦
        if blank_to (tab_index line2 real_width o.tabsize) line2
        then (let (ending, name) = process_dual_line spec line1 line2 in (ending, name, left))
        else (let (ending, name) = process_single_line spec line1 in
            (ending, name, unread_line line2 left))
  ]

  -- The empty line that `separate` asks for. No line there is a null pointer for `chomp`.
  unfoldable pub skip_empty : Bool → Source → Ending × Source
  skip_empty false source = (finished, source)
  skip_empty true source = elim (read_unread_line source) [
    | none ↦ (crashed, source)
    | some (line, left) ↦ elim (chomp line) [ [] ↦ (finished, left) | ◌∷◌ c s ↦ (refused, left) ]
  ]

  unfoldable pub input_spec : Bool → FileSpec → Source → Ending × Option Bytes × Source
  input_spec more spec source = elim (read_unread_line source) [
    | none ↦ (refused, some spec.new_name, source)
    | some (line1, left) ↦
        let (ending, name, left') = input_names more spec line1 left in
        let (ending', left'') = skip_empty (o.separate && more) left' in
        elim ending [
          | finished ↦ (ending', name, left'')
          | refused ↦ (refused, name, left')
          | crashed ↦ (crashed, name, left')
        ]
  ]

  unfoldable pub input_each : List FileSpec → Source → Ending × List (Option Bytes) × Source
  input_each [] source = elim (read_unread_line source) [
    | none ↦ (finished, [], source)
    | some (line, left) ↦ (refused, [], left)
  ]
  input_each (spec ∷ files) source =
      let (ending, name, left) = input_spec (has_more files) spec source in
      let (ending', names, left') = input_each files left in
      elim ending [
        | finished ↦ (ending', name ∷ names, left')
        | refused ↦ (refused, name ∷ new_names files, left)
        | crashed ↦ (crashed, name ∷ new_names files, left)
      ]

  -- How it ends, the specs' `new_name`, which is all that it assigns, and what is left unread.
  unfoldable pub input : List FileSpec → Bytes → Ending × List (Option Bytes) × Source
  input files text = input_each files ([], text)
