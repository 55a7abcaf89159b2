-- ===== src/Plan/Fresh.antt =====
-- What the scans of `make_plan` establish together, and what the sort of qmv makes of it.
use renameutils.Common.{
  ℕ, Bool, List, [], ◌∷◌, Option, none, some, ◌≡◌, inl, inr, refl, sym, ap, ◌∙◌, arith, Bytes,
  Bool-cases,
}
use renameutils.Dictionary.{Dictionary}
use renameutils.Plan.{
  Planning, is_unchecked, exists_here, for_each, previous_step, previous_scan, no_change_step,
  no_change_scan, old_missing_step, old_missing_scan, mark_duplicates, duplicate_step,
  duplicate_scan, common_scans,
}
use renameutils.Plan.Narrow.{In, IsUnchecked, Narrows, Narrows-trans, for_each-keep}
use renameutils.Plan.Scans.{
  previous_scan-Narrows, no_change_scan-Narrows, old_missing_scan-Narrows, old_missing_scan-exists,
}
use renameutils.Plan.Duplicates.{duplicate_scan-Narrows, duplicate_scan-distinct}
use renameutils.Plan.Files.{Safe}
use renameutils.Plan.Sort.{topologic_sort}
use renameutils.Plan.Invariant.{Ready, NoDup}
use renameutils.Plan.Safety.{topologic_sort-Safe}

-- The scans before the sort leave `ok` alone when the plan is made for the first time.
previous_step-fresh : (i : ℕ) (p : Planning) → IsUnchecked p i → previous_step i p ≡ p
unfolding previous_step
previous_step-fresh i p u = ground arith

pub previous_scan-fresh :
    (is : List ℕ) (p : Planning) → ((j : ℕ) → In j is → IsUnchecked p j) → previous_scan is p ≡ p
unfolding previous_scan
previous_scan-fresh [] p h = refl
previous_scan-fresh (i ∷ is) p h =
    ap (for_each previous_step is) (previous_step-fresh i p (h i (inl refl)))
    ∙ previous_scan-fresh is p (λ j k. h j (inr k))

no_change_step-ok : (i : ℕ) (p : Planning) → (no_change_step i p).ok ≡ p.ok
unfolding no_change_step
no_change_step-ok i p = ground arith

module _ (file_exists : Bytes → Bool) (work_directory : Bytes) where
  old_missing_step-ok :
      (i : ℕ) (p : Planning) → (old_missing_step file_exists work_directory i p).ok ≡ p.ok
  unfolding old_missing_step
  old_missing_step-ok i p = ground arith

module _ (dict : Dictionary) where
  open dict use {Map, put}

  mark_duplicates-ok :
      (i : ℕ) (o : Option ℕ) (p : Planning) → (mark_duplicates dict i o p).ok ≡ p.ok
  mark_duplicates-ok i none p = refl
  mark_duplicates-ok i (some k) p = ground arith

  duplicate_step-ok : (i : ℕ) (s : Map × Planning) → (duplicate_step dict i s).1.ok ≡ s.1.ok
  unfolding duplicate_step
  duplicate_step-ok i (m, p) =
      let e = mark_duplicates-ok i (put m (p.specs i).new_name i).0 p in
      elim (Bool-cases (is_unchecked (p.specs i).status)) [
        | inl on ↦ rw on e
        | inr off ↦ rw off refl
      ]

module _ (dict : Dictionary) (file_exists : Bytes → Bool) (work_directory : Bytes) where
  open dict use {Map, empty}

  pub common_scans-ok :
      (is : List ℕ) (p : Planning)
      → ((j : ℕ) → In j is → IsUnchecked p j)
      → (common_scans dict file_exists work_directory is p).ok ≡ p.ok
  unfolding common_scans no_change_scan old_missing_scan duplicate_scan
  common_scans-ok is p h =
      let same = λ (t : Planning). t.ok ≡ p.ok in
      for_each-keep same no_change_step (λ i q e. no_change_step-ok i q ∙ e) is _
        (for_each-keep same (old_missing_step file_exists work_directory)
          (λ i q e. old_missing_step-ok file_exists work_directory i q ∙ e) is _
          (for_each-keep (λ (s : Map × Planning). s.1.ok ≡ p.ok) (duplicate_step dict)
            (λ i q e. duplicate_step-ok dict i q ∙ e) is (empty, previous_scan is p)
            (ap (λ (t : Planning). t.ok) (previous_scan-fresh is p h))))

  pub common_scans-Narrows :
      (is : List ℕ) (p : Planning) → Narrows p (common_scans dict file_exists work_directory is p)
  unfolding common_scans
  common_scans-Narrows is p =
      let a = previous_scan is p in
      let b = duplicate_scan dict is a in
      let c = old_missing_scan file_exists work_directory is b in
      Narrows-trans (previous_scan-Narrows is p) (
        Narrows-trans (duplicate_scan-Narrows dict is a) (
          Narrows-trans (old_missing_scan-Narrows file_exists work_directory is b)
            (no_change_scan-Narrows is c)))

  -- What stays unchecked has a source, and new names that differ.
  pub common_scans-Ready :
      (is : List ℕ) (p : Planning)
      → ((j k : ℕ) → In j is → In k is → (p.specs j).old_name ≡ (p.specs k).old_name → j ≡ k)
      → Ready
          (exists_here file_exists work_directory)
          is
          (common_scans dict file_exists work_directory is p)
  unfolding common_scans
  common_scans-Ready is p distinct =
      let a = previous_scan is p in
      let b = duplicate_scan dict is a in
      let c = old_missing_scan file_exists work_directory is b in
      let nc = no_change_scan-Narrows is c in
      let nb = Narrows-trans (old_missing_scan-Narrows file_exists work_directory is b) nc in
      let np = common_scans-Narrows is p in
      record {
        old_there = λ j h u.
            rw (nc.old_same j)
              (old_missing_scan-exists file_exists work_directory is b j h (nc.still j u));
        old_distinct =
            λ j k hj hk uj uk e. distinct j k hj hk (sym (np.old_same j) ∙ e ∙ np.old_same k);
        new_distinct = λ j k hj hk uj uk e.
            duplicate_scan-distinct dict is a j k hj hk (nb.still j uj) (nb.still k uk)
              (sym (nb.new_same j) ∙ e ∙ nb.new_same k);
      }

-- The plan that qmv makes for the first time is safe up to the search for circular renames: `ok`
-- lists renames that, done in that order on the files that exist, each find their source and nothing
-- at their destination. Before, `ok` is empty and every spec of the list is unchecked; the specs are
-- listed once each, and their old names differ.
pub common_scans-topologic_sort :
    (dict : Dictionary) (file_exists : Bytes → Bool) (work_directory : Bytes) (renames : List ℕ)
    (p : Planning)
    → p.ok ≡ []
    → ((j : ℕ) → In j renames → IsUnchecked p j)
    → NoDup renames
    → ((j k : ℕ)
        → In j renames
        → In k renames
        → (p.specs j).old_name ≡ (p.specs k).old_name
        → j ≡ k)
    → Safe
        (λ j. (p.specs j).old_name)
        (λ j. (p.specs j).new_name)
        (exists_here file_exists work_directory)
        (topologic_sort dict file_exists work_directory renames
          (common_scans dict file_exists work_directory renames p)).1.planning.ok
common_scans-topologic_sort dict file_exists work_directory renames p fresh waiting nd distinct =
    let q = common_scans dict file_exists work_directory renames p in
    let n = common_scans-Narrows dict file_exists work_directory renames p in
    let safe =
      topologic_sort-Safe dict file_exists work_directory renames q
        (common_scans-ok dict file_exists work_directory renames p waiting ∙ fresh) nd
        (common_scans-Ready dict file_exists work_directory renames p distinct) in
    let old_same : Path (ℕ → Bytes) (λ j. (q.specs j).old_name) (λ j. (p.specs j).old_name) =
      λ t j. n.old_same j t in
    let new_same : Path (ℕ → Bytes) (λ j. (q.specs j).new_name) (λ j. (p.specs j).new_name) =
      λ t j. n.new_same j t in
    rw (old_same, new_same) at safe
