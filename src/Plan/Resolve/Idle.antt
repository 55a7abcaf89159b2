-- ===== src/Plan/Resolve/Idle.antt =====
-- The scans before the sort leave `prev_spec` alone.
use renameutils.Common.{
  ℕ, Bool, List, Option, none, some, ◌≡◌, inl, inr, arith, Bytes, Bool-cases, ==_iff,
}
use renameutils.Dictionary.{Dictionary}
use renameutils.Plan.{
  Planning, Status, is_unchecked, set_status, previous_step, previous_scan, no_change_step,
  no_change_scan, old_missing_step, old_missing_scan, mark_duplicates, duplicate_step,
  duplicate_scan, common_scans,
}
use renameutils.Plan.Narrow.{for_each-keep}

-- No scan before the sort makes a spec wait for another.
abbrev pub Idle : Planning → Type 0
Idle p = (j : ℕ) → (p.specs j).prev_spec ≡ none

set_status-Idle : (p : Planning) (i : ℕ) (status : Status) → Idle p → Idle (set_status p i status)
set_status-Idle p i status h j = let e = h i in let f = h j in ground (arith, e, f, ==_iff j i)

previous_step-Idle : (i : ℕ) (p : Planning) → Idle p → Idle (previous_step i p)
unfolding previous_step
previous_step-Idle i p h j = let f = h j in ground (arith, f)

no_change_step-Idle : (i : ℕ) (p : Planning) → Idle p → Idle (no_change_step i p)
unfolding no_change_step
no_change_step-Idle i p h j = let e = h i in let f = h j in ground (arith, e, f, ==_iff j i)

old_missing_step-Idle :
    (file_exists : Bytes → Bool) (work_directory : Bytes) (i : ℕ) (p : Planning)
    → Idle p
    → Idle (old_missing_step file_exists work_directory i p)
unfolding old_missing_step
old_missing_step-Idle file_exists work_directory i p h j =
    let e = h i in let f = h j in ground (arith, e, f, ==_iff j i)

module _ (dict : Dictionary) where
  open dict use {Map, empty, put}

  mark-Idle : (i : ℕ) (o : Option ℕ) (p : Planning) → Idle p → Idle (mark_duplicates dict i o p)
  mark-Idle i none p h j = h j
  mark-Idle i (some k) p h j =
      let e = h i in
      let f = h j in let g = h k in ground (arith, e, f, g, ==_iff j i, ==_iff j k, ==_iff i k)

  duplicate_step-Idle : (i : ℕ) (s : Map × Planning) → Idle s.1 → Idle (duplicate_step dict i s).1
  unfolding duplicate_step
  duplicate_step-Idle i (m, p) h =
      let e = mark-Idle i (put m (p.specs i).new_name i).0 p h in
      elim (Bool-cases (is_unchecked (p.specs i).status)) [ inl on ↦ rw on e | inr off ↦ rw off h ]

  pub common_scans-Idle :
      (file_exists : Bytes → Bool) (work_directory : Bytes) (is : List ℕ) (p : Planning)
      → Idle p
      → Idle (common_scans dict file_exists work_directory is p)
  unfolding common_scans no_change_scan old_missing_scan duplicate_scan previous_scan
  common_scans-Idle file_exists work_directory is p h =
      for_each-keep Idle no_change_step no_change_step-Idle is _ (
        for_each-keep Idle (old_missing_step file_exists work_directory)
          (old_missing_step-Idle file_exists work_directory) is _
          (for_each-keep (λ (s : Map × Planning). Idle s.1) (duplicate_step dict)
            duplicate_step-Idle is (empty, previous_scan is p)
            (for_each-keep Idle previous_step previous_step-Idle is p h)))
