-- ===== src/Variables.antt =====
-- src/variables.c: the commands `set` and `show` on the program's variables, and
-- `find_edit_format_by_name` of src/edit.c.
--
-- What a command prints is its result; `strcasecmp` compares by way of the parameter `lower`, and
-- the options of a format are set by the parameter `parse_options`. Texts are not translated.
pub mod Commands
mod Tests
use renameutils.Common.{
  ℕ, Bool, true, false, ◌||◌, List, [], ◌∷◌, ◌++◌, Option, none, some, if◌then◌else◌, Bytes, codes,
  str_eq,
}
use mathlib.Core.List.{map}

-- The variables of the program, with what a format's options are.
pub record Variables (Format : Type 0) : Type 0 where
  pub simulate : Bool
  pub editor_program : Bytes
  pub format : Format
  pub edit_filename : Bytes
  pub ls_program : Bytes

-- A format, as the commands see it.
pub record Formats (Format : Type 0) : Type 0 where
  pub find_edit_format_by_name : Bytes → Option Format
  pub parse_options : Format → Bytes → Format

module _ {Format : Type 0} (named : Format → Bytes → Bool) where
  -- The loop of `find_edit_format_by_name`: `named` compares with the name and the short name.
  unfoldable pub find_format : List Format → Bytes → Option Format
  find_format [] name = none
  find_format (f ∷ formats) name =
      let rest = find_format formats name in if named f name then some f else rest

module _ (lower : ℕ → ℕ) where
  -- `strcasecmp(s, t) == 0`
  abbrev pub same_nocase : Bytes → Bytes → Bool
  same_nocase s t = str_eq (map lower s) (map lower t)

  unfoldable pub parse_boolean : Bytes → Option Bool
  parse_boolean value =
      if str_eq value (codes "0")
        || (same_nocase value (codes "false")
            || (same_nocase value (codes "no") || same_nocase value (codes "off")))
      then some false
      else if str_eq value (codes "1")
          || (same_nocase value (codes "true")
              || (same_nocase value (codes "yes") || same_nocase value (codes "on")))
      then some true
      else none

  module _ {Format : Type 0} (formats : Formats Format) where
    -- `set NAME VALUE`
    unfoldable pub set_variable : Variables Format → Bytes → Bytes → Variables Format
    set_variable v name value =
        if str_eq name (codes "simulate")
        then elim (parse_boolean value) [ none ↦ v | some b ↦ record v { simulate = b } ]
        else if str_eq name (codes "editor")
        then record v { editor_program = value }
        else if str_eq name (codes "format")
        then elim (formats.find_edit_format_by_name value) [
          | none ↦ v
          | some f ↦ record v { format = f }
        ]
        else if str_eq name (codes "tempfile")
        then v
        else if str_eq name (codes "options")
        then record v { format = formats.parse_options v.format value }
        else if str_eq name (codes "ls")
        then record v { ls_program = value }
        else v

    -- The arguments behind the command's own name; without a value it shows, or complains.
    unfoldable pub set_command : Variables Format → List Bytes → Variables Format
    set_command v [] = v
    set_command v (name ∷ []) = v
    set_command v (name ∷ value ∷ args) = set_variable v name value

-- The line that `show_variable` prints, if any.
unfoldable pub show_variable : {Format : Type 0} → Variables Format → Bytes → Option Bytes
show_variable v name =
    if str_eq name (codes "simulate")
    then some (name ++ (codes "=" ++ (if v.simulate then codes "true" else codes "false")))
    else if str_eq name (codes "editor")
    then some (name ++ (codes "=" ++ v.editor_program))
    else if str_eq name (codes "tempfile")
    then some (name ++ (codes "=" ++ v.edit_filename))
    else if str_eq name (codes "options")
    then some (codes "Write-only variable")
    else if str_eq name (codes "ls")
    then some (name ++ (codes "=" ++ v.ls_program))
    else none
