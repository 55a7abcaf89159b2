-- ===== src/Variables/Commands.antt =====
-- What `set` changes, and that `show` shows it.
use renameutils.Common.{
  ℕ, Bool, List, ◌∷◌, ◌++◌, some, if◌then◌else◌, Bytes, codes, str_eq, str_eq_iff, ◌≡◌, ◌≢◌, refl,
  arith, Option, none, ap, sym, ◌∙◌, true, false, Option-cases, inl, inr,
}
use renameutils.Variables.{
  Variables, Formats, parse_boolean, set_variable, set_command, show_variable,
}

if_same {ℓ} :
    {A : Type ℓ} (test : Bool) {x x' y y' : A}
    → (test ≡ true → x ≡ x')
    → y ≡ y'
    → (if test then x else y) ≡ (if test then x' else y')
if_same true h k = h refl
if_same false h k = k

-- `show` prints a variable from its own field.
show_variable-same :
    {Format : Type 0} (v w : Variables Format) (name : Bytes)
    → (name ≡ codes "simulate" → w.simulate ≡ v.simulate)
    → (name ≡ codes "editor" → w.editor_program ≡ v.editor_program)
    → w.edit_filename ≡ v.edit_filename
    → (name ≡ codes "ls" → w.ls_program ≡ v.ls_program)
    → show_variable w name ≡ show_variable v name
unfolding show_variable
show_variable-same v w name simulate editor tempfile ls =
    let line : Bytes → Option Bytes = λ t. some (name ++ (codes "=" ++ t)) in
    if_same (str_eq name (codes "simulate"))
      (λ e.
        ap (λ b. line (if b then codes "true" else codes "false"))
          (simulate ((str_eq_iff name _).0 e)))
      (if_same (str_eq name (codes "editor")) (λ e. ap line (editor ((str_eq_iff name _).0 e)))
        (if_same (str_eq name (codes "tempfile")) (λ e. ap line tempfile)
          (if_same (str_eq name (codes "options")) {x = some (codes "Write-only variable")}
            (λ e. refl)
            (if_same (str_eq name (codes "ls")) {y = none}
              (λ e. ap line (ls ((str_eq_iff name _).0 e))) refl))))

module _ (lower : ℕ → ℕ) {Format : Type 0} (formats : Formats Format) where
  set_variable-others :
      (v : Variables Format) (name value : Bytes)
      → (name ≢ codes "simulate" → (set_variable lower formats v name value).simulate ≡ v.simulate)
        × (name ≢ codes "editor"
            → (set_variable lower formats v name value).editor_program ≡ v.editor_program)
        × (name ≢ codes "ls" → (set_variable lower formats v name value).ls_program ≡ v.ls_program)
        × ((set_variable lower formats v name value).edit_filename ≡ v.edit_filename)
  unfolding set_variable
  set_variable-others v name value =
      let simulate = str_eq_iff name (codes "simulate") in
      let editor = str_eq_iff name (codes "editor") in
      let ls = str_eq_iff name (codes "ls") in
      (ground arith, ground arith, ground arith, ground arith)

  -- `set` with a name and a value changes `simulate`, the editor and the `ls` program only under their
  -- own names, and never the name of the edit file.
  pub set_command-others :
      (v : Variables Format) (name value : Bytes) (args : List Bytes)
      → (name ≢ codes "simulate"
          → (set_command lower formats v (name ∷ value ∷ args)).simulate ≡ v.simulate)
        × (name ≢ codes "editor"
            → (set_command lower formats v (name ∷ value ∷ args)).editor_program ≡ v.editor_program)
        × (name ≢ codes "ls"
            → (set_command lower formats v (name ∷ value ∷ args)).ls_program ≡ v.ls_program)
        × ((set_command lower formats v (name ∷ value ∷ args)).edit_filename ≡ v.edit_filename)
  unfolding set_command
  set_command-others v name value args = set_variable-others v name value

  show_set_text :
      (v : Variables Format) (value : Bytes)
      → (show_variable (set_variable lower formats v (codes "editor") value) (codes "editor")
          ≡ some (codes "editor=" ++ value))
        × (show_variable (set_variable lower formats v (codes "ls") value) (codes "ls")
            ≡ some (codes "ls=" ++ value))
        × (show_variable (set_variable lower formats v (codes "simulate") value) (codes "simulate")
            ≡ elim (parse_boolean lower value) [
              | none ↦ show_variable v (codes "simulate")
              | some b ↦ some (codes "simulate=" ++ (if b then codes "true" else codes "false"))
            ])
        × (show_variable (set_variable lower formats v (codes "format") value) (codes "format")
            ≡ none)
  unfolding set_variable show_variable str_eq
  show_set_text v value = (
    refl,
    refl,
    elim (Option-cases (parse_boolean lower value)) [
      | inl none' ↦ rw none' refl
      | inr (b, e) ↦ rw e refl
    ],
    refl,
  )

  -- What `show` prints of a variable changes by `set` of that variable alone. After it, `show` prints
  -- the editor and the `ls` program as they were given, `simulate` as the truth value that was read,
  -- or as before where the value is none; and it prints nothing for `format`.
  pub show-set :
      (v : Variables Format) (name other value : Bytes) (args : List Bytes)
      → (name ≢ other
          → show_variable (set_command lower formats v (name ∷ value ∷ args)) other
            ≡ show_variable v other)
        × (show_variable
              (set_command lower formats v (codes "editor" ∷ value ∷ args))
              (codes "editor")
            ≡ some (codes "editor=" ++ value))
        × (show_variable (set_command lower formats v (codes "ls" ∷ value ∷ args)) (codes "ls")
            ≡ some (codes "ls=" ++ value))
        × (show_variable
              (set_command lower formats v (codes "simulate" ∷ value ∷ args))
              (codes "simulate")
            ≡ elim (parse_boolean lower value) [
              | none ↦ show_variable v (codes "simulate")
              | some b ↦ some (codes "simulate=" ++ (if b then codes "true" else codes "false"))
            ])
        × (show_variable
              (set_command lower formats v (codes "format" ∷ value ∷ args))
              (codes "format")
            ≡ none)
  unfolding set_command
  show-set v name other value args =
      let (simulate, editor, ls, tempfile) = set_variable-others v name value in
      let (editor_line, ls_line, simulate_line, format_line) = show_set_text v value in
      (
        λ h.
            show_variable-same v (set_variable lower formats v name value) other
              (λ e. simulate (λ k. h (k ∙ sym e))) (λ e. editor (λ k. h (k ∙ sym e))) tempfile
              (λ e. ls (λ k. h (k ∙ sym e))),
        editor_line,
        ls_line,
        simulate_line,
        format_line,
      )
