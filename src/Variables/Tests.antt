-- ===== src/Variables/Tests.antt =====
-- The commands on one state, with formats that are numbers.
use renameutils.Common.{
  zero, suc, ℕ, ◌+◌, true, false, ◌&&◌, [], ◌∷◌, ◌++◌, none, some, if◌then◌else◌, leb, codes,
  str_eq, ◌≡◌, ◌≢◌, refl,
}
use renameutils.Variables.{Variables, Formats, parse_boolean, set_command, show_variable}
use renameutils.Variables.Commands.{set_command-others, show-set}

-- `tolower` of the "C" locale
abbrev to_lower : ℕ → ℕ
to_lower c = if leb b'A' c && leb c b'Z' then c + 32 else c

abbrev formats : Formats ℕ
formats = record { find_edit_format_by_name = λ name. none; parse_options = λ f options. f }

abbrev variables : Variables ℕ
variables = record {
  simulate = false;
  editor_program = codes "vi";
  format = 0;
  edit_filename = codes "/tmp/x";
  ls_program = codes "ls";
}

truth_values :
    (parse_boolean to_lower (codes "Yes") ≡ some true)
    × (parse_boolean to_lower (codes "OFF") ≡ some false)
    × (parse_boolean to_lower (codes "maybe") ≡ none)
unfolding parse_boolean str_eq
truth_values = (refl, refl, refl)

set_command-others_example :
    (codes "editor" ≢ codes "simulate"
      → (set_command to_lower formats variables (codes "editor" ∷ codes "ed" ∷ [])).simulate
        ≡ false)
    × (codes "editor" ≢ codes "editor"
        → (set_command to_lower formats variables (codes "editor" ∷ codes "ed" ∷ [])).editor_program
          ≡ codes "vi")
    × (codes "editor" ≢ codes "ls"
        → (set_command to_lower formats variables (codes "editor" ∷ codes "ed" ∷ [])).ls_program
          ≡ codes "ls")
    × ((set_command to_lower formats variables (codes "editor" ∷ codes "ed" ∷ [])).edit_filename
        ≡ codes "/tmp/x")
set_command-others_example =
    set_command-others to_lower formats variables (codes "editor") (codes "ed") []

abbrev after_set : ℕ → Variables ℕ
after_set zero = set_command to_lower formats variables (codes "editor" ∷ codes "Yes" ∷ [])
after_set (suc zero) = set_command to_lower formats variables (codes "ls" ∷ codes "Yes" ∷ [])
after_set (suc (suc zero)) =
    set_command to_lower formats variables (codes "simulate" ∷ codes "Yes" ∷ [])
after_set _ = set_command to_lower formats variables (codes "format" ∷ codes "Yes" ∷ [])

show-set_example :
    (codes "editor" ≢ codes "ls"
      → show_variable (after_set 0) (codes "ls") ≡ show_variable variables (codes "ls"))
    × (show_variable (after_set 0) (codes "editor") ≡ some (codes "editor=" ++ codes "Yes"))
    × (show_variable (after_set 1) (codes "ls") ≡ some (codes "ls=" ++ codes "Yes"))
    × (show_variable (after_set 2) (codes "simulate")
        ≡ elim (parse_boolean to_lower (codes "Yes")) [
          | none ↦ show_variable variables (codes "simulate")
          | some b ↦ some (codes "simulate=" ++ (if b then codes "true" else codes "false"))
        ])
    × (show_variable (after_set 3) (codes "format") ≡ none)
show-set_example =
    show-set to_lower formats variables (codes "editor") (codes "ls") (codes "Yes") []
