-- ===== src/Plan/Files.antt =====
-- The names that exist while the renames of a plan are done one after the other. Different names are
-- different files here: links and names such as `a` and `./a` are left aside.
use renameutils.Common.{
  ℕ, Bool, true, false, List, [], ◌∷◌, ◌++◌, ◌≡◌, refl, if◌then◌else◌, Bytes, str_eq,
}

abbrev pub FileSet : Type 0
FileSet = Bytes → Bool

-- `mv old new`
abbrev pub moved : FileSet → Bytes → Bytes → FileSet
moved files old new x = if str_eq x new then true else if str_eq x old then false else files x

module _ (old new : ℕ → Bytes) where
  -- What exists after the renames.
  unfoldable pub final : FileSet → List ℕ → FileSet
  final files [] = files
  final files (i ∷ is) = final (moved files (old i) (new i)) is

  -- Each rename finds its source, and nothing at its destination, when its turn comes.
  unfoldable pub Safe : FileSet → List ℕ → Type 0
  Safe files [] = Unit
  Safe files (i ∷ is) =
      (files (old i) ≡ true) × (files (new i) ≡ false) × Safe (moved files (old i) (new i)) is

  pub final-snoc :
      (files : FileSet) (is : List ℕ) (i : ℕ) (x : Bytes)
      → final files (is ++ i ∷ []) x ≡ moved (final files is) (old i) (new i) x
  unfolding final
  final-snoc files [] i x = refl
  final-snoc files (k ∷ is) i x = final-snoc (moved files (old k) (new k)) is i x

  pub Safe-snoc :
      (files : FileSet) (is : List ℕ) (i : ℕ)
      → Safe files is
      → final files is (old i) ≡ true
      → final files is (new i) ≡ false
      → Safe files (is ++ i ∷ [])
  unfolding final Safe
  Safe-snoc files [] i s there free = (there, free, tt)
  Safe-snoc files (k ∷ is) i (a, b, s) there free =
      (a, b, Safe-snoc (moved files (old k) (new k)) is i s there free)
