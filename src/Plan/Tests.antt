-- ===== src/Plan/Tests.antt =====
-- Plans for files `a`, `b`, … that are each to be renamed to the next letter.
use renameutils.Common.{
  ℕ, ◌+◌, Bool, true, false, ◌||◌, List, [], ◌∷◌, none, ◌≡◌, inl, inr, refl, ap, arith, Bytes,
  codes, get_or, str_eq,
}
use renameutils.HMap.Strings.{hash_dictionary}
use renameutils.StringUtils.{cat_files, ends_with}
use renameutils.Plan.{unchecked, Planning, exists_here, common_scans, make_copy_plan}
use renameutils.Plan.Narrow.{In}
use renameutils.Plan.Files.{Safe}
use renameutils.Plan.Sort.{topologic_sort}
use renameutils.Plan.Rounds.{Stuck, topologic_sort-Stuck}
use renameutils.Plan.Fresh.{common_scans-topologic_sort}
use renameutils.Plan.Copies.{make_copy_plan_lem}
use renameutils.Plan.Complete.{make_copy_plan_complete}

abbrev letter : ℕ → Bytes
letter j = (97 + j) ∷ []

abbrev next_letter : ℕ → Bytes
next_letter j = (98 + j) ∷ []

abbrev fresh_plan : Planning
fresh_plan = record {
  specs = λ j. record {
    old_name = letter j;
    new_name = next_letter j;
    prev_spec = none;
    next_spec = none;
    status = unchecked;
  };
  ok = [];
  error = [];
  unchanged = [];
}

abbrev renames : List ℕ
renames = 0 ∷ 1 ∷ []

-- `a` and `b` exist.
abbrev on_disk : Bytes → Bool
on_disk name = str_eq name (codes "/d/a") || str_eq name (codes "/d/b")

abbrev directory : Bytes
directory = codes "/d"

letters_differ : (j k : ℕ) → In j renames → In k renames → letter j ≡ letter k → j ≡ k
letters_differ j k hj hk e = let h = ap (λ s. get_or s 0 0) e in omega arith

common_scans-topologic_sort_example :
    Safe letter next_letter
      (exists_here on_disk directory)
      (topologic_sort hash_dictionary on_disk directory renames
        (common_scans hash_dictionary on_disk directory renames fresh_plan)).1.planning.ok
common_scans-topologic_sort_example =
    common_scans-topologic_sort hash_dictionary on_disk directory renames fresh_plan refl
      (λ j h. refl) ((λ h. ground arith), ((λ h. h), tt)) letters_differ

topologic_sort-Stuck_example :
    ((topologic_sort hash_dictionary on_disk directory renames fresh_plan).2 ≡ true)
    × Stuck hash_dictionary
        (topologic_sort hash_dictionary on_disk directory renames fresh_plan).0
        (topologic_sort hash_dictionary on_disk directory renames fresh_plan).1
topologic_sort-Stuck_example =
    topologic_sort-Stuck hash_dictionary on_disk directory renames fresh_plan

make_copy_plan_lem_example :
    ((j : ℕ)
      → In j (make_copy_plan hash_dictionary on_disk directory renames fresh_plan).ok
      → In j renames
        × (exists_here on_disk directory (letter j) ≡ true)
        × (exists_here on_disk directory (next_letter j) ≡ false))
    × ((j k : ℕ)
        → In j (make_copy_plan hash_dictionary on_disk directory renames fresh_plan).ok
        → In k (make_copy_plan hash_dictionary on_disk directory renames fresh_plan).ok
        → next_letter j ≡ next_letter k
        → j ≡ k)
make_copy_plan_lem_example =
    make_copy_plan_lem hash_dictionary on_disk directory renames fresh_plan refl (λ j h. refl)
      letters_differ

on_disk_b : exists_here on_disk directory (letter 1) ≡ true
unfolding cat_files str_eq ends_with
on_disk_b = refl

not_on_disk_c : exists_here on_disk directory (next_letter 1) ≡ false
unfolding cat_files str_eq ends_with
not_on_disk_c = refl

make_copy_plan_complete_example :
    In 1 (make_copy_plan hash_dictionary on_disk directory renames fresh_plan).ok
make_copy_plan_complete_example =
    make_copy_plan_complete hash_dictionary on_disk directory renames fresh_plan 1 (λ i h. refl)
      ((λ h. ground arith), ((λ h. h), tt)) (inr (inl refl)) on_disk_b not_on_disk_c
      (λ e. let g = ap (λ s. get_or s 0 0) e in ground arith)
      (λ i h n e. n (let g = ap (λ s. get_or s 0 0) e in omega arith))
      (λ i h e. let g = ap (λ s. get_or s 0 0) e in ground arith)
