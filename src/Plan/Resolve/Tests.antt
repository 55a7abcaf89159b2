-- ===== src/Plan/Resolve/Tests.antt =====
-- A plan in which `a` and `b` change places, `c` becomes `d`, and `a-1` is there already.
use renameutils.Common.{
  ℕ, zero, suc, ◌+◌, ◌<◌, Bool, true, false, not, ◌&&◌, ◌||◌, List, [], ◌∷◌, none, some, ◌≡◌, ◌≢◌,
  inl, inr, refl, ap, arith, Bytes, codes, str_eq, length, get_or,
}
use renameutils.HMap.Strings.{hash_dictionary}
use renameutils.StringUtils.{cat_files, ends_with}
use renameutils.Plan.{unchecked, is_unchecked, exists_here}
use renameutils.Plan.Narrow.{In}
use renameutils.Plan.Files.{FileSet, moved, Safe}
use renameutils.Apply.{Outcome, exited, System, Applying, apply_plan}
use renameutils.Apply.Moves.{MovesFiles, Unblocked}
use renameutils.Plan.Resolve.{Resolving, temporary_name, make_rename_plan}
use renameutils.Plan.Resolve.Whole.{
  First, HasRoom, make_rename_plan-Safe, make_rename_plan-apply_plan,
}

abbrev new_of : ℕ → Bytes
new_of zero = codes "b"
new_of (suc zero) = codes "a"
new_of (suc (suc j)) = codes "d"

abbrev swapping : Resolving
swapping = record {
  planning = record {
    specs = λ j. record {
      old_name = (97 + j) ∷ [];
      new_name = new_of j;
      prev_spec = none;
      next_spec = none;
      status = unchecked;
    };
    ok = [];
    error = [];
    unchanged = [];
  };
  fresh = 3;
}

abbrev renames : List ℕ
renames = 0 ∷ 1 ∷ 2 ∷ []

abbrev on_disk : Bytes → Bool
on_disk name =
    str_eq name (codes "/d/a")
    || str_eq name (codes "/d/b")
    || str_eq name (codes "/d/c")
    || str_eq name (codes "/d/a-1")

abbrev directory : Bytes
directory = codes "/d"

swapping-First : First renames swapping
swapping-First = record {
  fresh_ok = refl;
  waiting = λ j h. refl;
  once = ((λ h. ground arith), ((λ h. ground arith), ((λ h. h), tt)));
  distinct = λ j k hj hk e. let h = ap (λ s. get_or s 0 0) e in omega arith;
  idle = λ j. refl;
  allocated = λ j h. ground (arith, h);
}

abbrev Gone : Bytes → Type 0
Gone name = exists_here on_disk directory name ≡ false

second_free : Gone (temporary_name (97 ∷ []) 2)
unfolding temporary_name cat_files str_eq ends_with
second_free = refl

b_free : Gone (temporary_name (98 ∷ []) 1)
unfolding temporary_name cat_files str_eq ends_with
b_free = refl

c_free : Gone (temporary_name (99 ∷ []) 1)
unfolding temporary_name cat_files str_eq ends_with
c_free = refl

new_short : (j : ℕ) → length (new_of j) ≡ 1
new_short zero = refl
new_short (suc zero) = refl
new_short (suc (suc j)) = refl

temporary_long : (c count : ℕ) → 1 < length (temporary_name (c ∷ []) count)
unfolding temporary_name
temporary_long c count = ground arith

unused : (c count k : ℕ) → new_of k ≢ temporary_name (c ∷ []) count
unused c count k e =
    let h = ap length e in let a = new_short k in let b = temporary_long c count in omega arith

swapping-HasRoom : HasRoom on_disk directory 9 renames swapping.planning
swapping-HasRoom j (inl e) = rw e (1, ground arith, second_free, λ k h. unused 97 2 k)
swapping-HasRoom j (inr (inl e)) = rw e (0, ground arith, b_free, λ k h. unused 98 1 k)
swapping-HasRoom j (inr (inr (inl e))) = rw e (0, ground arith, c_free, λ k h. unused 99 1 k)
swapping-HasRoom j (inr (inr (inr h))) = absurd h

make_rename_plan-Safe_example :
    (r' : Resolving) × (make_rename_plan hash_dictionary on_disk directory 9 renames swapping
      ≡ some r')
    × Safe
        (λ j. (r'.planning.specs j).old_name)
        (λ j. (r'.planning.specs j).new_name)
        (exists_here on_disk directory)
        r'.planning.ok
    × Unblocked r'.planning.specs r'.planning.ok
    × ((j : ℕ) → In j renames → is_unchecked (r'.planning.specs j).status ≡ false)
make_rename_plan-Safe_example =
    make_rename_plan-Safe hash_dictionary on_disk directory 9 renames swapping swapping-First
      swapping-HasRoom

abbrev move_if : Bool → FileSet → Bytes → Bytes → Outcome × FileSet
move_if true w old new = (exited 0, moved w old new)
move_if false w old new = (exited 1, w)

abbrev memory : System FileSet
memory = record { run = λ w command old new. move_if (w old && not (w new)) w old new }

memory-MovesFiles : MovesFiles memory (codes "mv") (λ w. w)
memory-MovesFiles = record {
  succeeds = λ w old new there free. rw (there, free) refl;
  renames = λ w old new there free. rw (there, free) refl;
}

abbrev made : Resolving → Applying FileSet
made r = record {
  world = exists_here on_disk directory;
  specs = r.planning.specs;
  work_files = renames;
  fail = false;
}

make_rename_plan-apply_plan_example :
    (r' : Resolving) × (make_rename_plan hash_dictionary on_disk directory 9 renames swapping
      ≡ some r')
    × ((apply_plan memory (codes "mv") false true true r'.planning.ok (made r')).0 ≡ true)
    × ((apply_plan memory (codes "mv") false true true r'.planning.ok (made r')).1 ≡ [])
make_rename_plan-apply_plan_example =
    make_rename_plan-apply_plan memory (codes "mv") (λ w. w) (exists_here on_disk directory) renames
      hash_dictionary on_disk directory 9 renames swapping memory-MovesFiles refl swapping-First
      swapping-HasRoom
