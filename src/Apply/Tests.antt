-- ===== src/Apply/Tests.antt =====
-- A plan that renames `b` to `c`, and then `a` to `b`, on a file system that holds `a` and `b`.
use renameutils.Common.{
  ℕ, Bool, true, false, not, ◌&&◌, ◌||◌, List, [], ◌∷◌, none, some, ◌≡◌, refl, ◌==◌, if◌then◌else◌,
  Bytes, codes, str_eq,
}
use renameutils.Plan.{FileSpec, apply}
use renameutils.Plan.Files.{FileSet, moved, final, Safe}
use renameutils.Apply.{Outcome, exited, System, Applying, free_file_spec, apply_plan}
use renameutils.Apply.Moves.{MovesFiles, Unblocked, apply_plan-Safe}
use renameutils.Apply.Simulate.{apply_plan-simulate}

abbrev move_if : Bool → FileSet → Bytes → Bytes → Outcome × FileSet
move_if true w old new = (exited 0, moved w old new)
move_if false w old new = (exited 1, w)

abbrev memory : System FileSet
memory = record { run = λ w command old new. move_if (w old && not (w new)) w old new }

memory-MovesFiles : MovesFiles memory (codes "mv") (λ w. w)
memory-MovesFiles = record {
  succeeds = λ w old new there gone. rw (there, gone) refl;
  renames = λ w old new there gone. rw (there, gone) refl;
}

-- Spec 0 is the rename of `b`, spec 1 that of `a`, which waits for spec 0.
abbrev specs : ℕ → FileSpec
specs j =
    if j == 0
    then record {
      old_name = codes "b";
      new_name = codes "c";
      prev_spec = none;
      next_spec = some 1;
      status = apply;
    }
    else record {
      old_name = codes "a";
      new_name = codes "b";
      prev_spec = some 0;
      next_spec = none;
      status = apply;
    }

abbrev present : FileSet
present name = str_eq name (codes "a") || str_eq name (codes "b")

abbrev start : Applying FileSet
start = record { world = present; specs = specs; work_files = 0 ∷ 1 ∷ []; fail = false }

abbrev order : List ℕ
order = 0 ∷ 1 ∷ []

order-Unblocked : Unblocked specs order
unfolding Unblocked free_file_spec
order-Unblocked = (refl, refl, (refl, refl, tt))

order-Safe : Safe (λ j. (specs j).old_name) (λ j. (specs j).new_name) present order
unfolding Safe str_eq
order-Safe = (refl, refl, (refl, refl, tt))

apply_plan-Safe_example :
    ((apply_plan memory (codes "mv") false true true order start).0 ≡ true)
    × ((apply_plan memory (codes "mv") false true true order start).1 ≡ [])
    × ((apply_plan memory (codes "mv") false true true order start).2.world
        ≡ final (λ j. (specs j).old_name) (λ j. (specs j).new_name) present order)
apply_plan-Safe_example =
    apply_plan-Safe memory (codes "mv") (λ w. w) order start memory-MovesFiles refl order-Unblocked
      order-Safe

apply_plan-simulate_example :
    ((apply_plan memory (codes "mv") true true true order start).2.world ≡ present)
    × (true ≡ true
        → true ≡ true
        → (apply_plan memory (codes "mv") true true true order start).0 ≡ true)
apply_plan-simulate_example = apply_plan-simulate memory (codes "mv") true true order start refl
