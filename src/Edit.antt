-- ===== src/Edit.antt =====
-- src/editformats: what the user edits, and how it is read back.
--
-- A stream is the bytes that are left of it. `getsubopt`, of the C library, has split the options:
-- `Suboption` is what a call of it finds. Messages to the user are left aside; a format's `input` ends
-- as `Ending` says, and `crashed` is the use of a null pointer that `dequote_output_file` returned.
pub mod Lines
pub mod SingleColumn
pub mod DestinationOnly
pub mod DualColumn
pub mod Generator
mod Tests
use renameutils.Common.{
  zero, ℕ, suc, Bool, true, false, ◌&&◌, not, List, [], ◌∷◌, Option, none, some, if◌then◌else◌,
  ◌==◌, Bytes, drop,
}
use renameutils.StringUtils.{newline, chomp, starts_with}
use renameutils.Plan.{FileSpec}

-- What `getsubopt` finds: no name that it knows, or one of `option_array` and the value.
pub data Suboption (Name : Type 0) : Type 0 where
  unknown : Suboption Name
  found : Name → Option Bytes → Suboption Name

pub data Ending : Type 0 where
  finished : Ending
  refused : Ending
  crashed : Ending

-- `read_line`: the line with its newline, and what is left.
unfoldable pub read_line : Bytes → Option (Bytes × Bytes)
read_line [] = none
read_line (c ∷ text) =
    let rest = read_line text in
    if c == newline
    then some (c ∷ [], text)
    else elim rest [ none ↦ some (c ∷ [], []) | some (line, left) ↦ some (c ∷ line, left) ]

abbrev pub has_more : List FileSpec → Bool
has_more [] = false
has_more (spec ∷ files) = true

-- The line that `separate` asks for between two names: what is left behind it.
unfoldable pub skip_separator : Bool → Bytes → Option Bytes
skip_separator false text = some text
skip_separator true text = elim (read_line text) [
  | none ↦ none
  | some (line, left) ↦ elim (chomp line) [ [] ↦ some left | ◌∷◌ c s ↦ none ]
]

-- The `while` loop at `option_array[c]`: the name found, and `c` afterwards.
unfoldable pub find_option : List Bytes → ℕ → Bytes → Option Bytes × ℕ
find_option [] c text = (none, c)
find_option (name ∷ names) c text =
    let rest = find_option names (suc c) text in
    if starts_with name text then (some name, suc c) else rest

-- `if (state == 0) c = 0`
abbrev pub start_from : ℕ → ℕ → ℕ
start_from zero c = 0
start_from (suc state) c = c

-- One call of `option_generator` on the option array and the static `c`: the name found, and `c`
-- afterwards.
unfoldable pub option_generator : List Bytes → ℕ → Bytes → ℕ → Option Bytes × ℕ
unfolding find_option
option_generator option_array c text state =
    let c' = start_from state c in find_option (drop c' option_array) c' text
