-- ===== src/Plan.antt =====
-- src/plan.c: the plan of the renames (or copies) that the user asked for.
--
-- A `FileSpec *` is a number, and the specs are a function from these numbers: every pointer of a
-- run aliases the one spec. A list of specs is the list of their numbers. The hash map is the
-- interface `Dictionary`. What the file system holds is the parameter `file_exists`, which does not
-- change while a plan is made.
pub mod Scans
pub mod Narrow
pub mod Duplicates
pub mod Copies
pub mod Kept
pub mod Complete
pub mod Sort
pub mod Rounds
pub mod Files
pub mod Chained
pub mod Linked
pub mod Invariant
pub mod Safety
pub mod Fresh
pub mod Resolve
mod Tests
use renameutils.Common.{
  ℕ, zero, suc, ◌+◌, Bool, true, false, not, ◌||◌, List, [], ◌∷◌, ◌++◌, Option, none, some, ◌==◌,
  if◌then◌else◌, Bytes, codes, length, str_eq,
}
use renameutils.StringUtils.{cat_files}
use renameutils.Dictionary.{Dictionary}

-- `FileSpecStatus`
pub data Status : Type 0 where
  unchecked : Status
  old_missing : Status
  duplicate : Status
  no_change : Status
  new_exists : Status
  apply : Status
  circular : Status

abbrev pub is_unchecked : Status → Bool
is_unchecked unchecked = true
is_unchecked _ = false

pub record FileSpec : Type 0 where
  pub old_name : Bytes
  pub new_name : Bytes
  pub prev_spec : Option ℕ
  pub next_spec : Option ℕ
  pub status : Status

-- The specs, with the lists of an `ApplyPlan`.
pub record Planning : Type 0 where
  pub specs : ℕ → FileSpec
  pub ok : List ℕ
  pub error : List ℕ
  pub unchanged : List ℕ

abbrev pub write_spec : (ℕ → FileSpec) → ℕ → FileSpec → ℕ → FileSpec
write_spec specs i spec k = if k == i then spec else specs k

abbrev pub set_status : Planning → ℕ → Status → Planning
set_status p i status = record p {
  specs = write_spec p.specs i (record (p.specs i) { status = status });
}

-- A status that the plan lists under `error`, and the addition to that list.
abbrev pub refuse : Planning → ℕ → Status → Planning
refuse p i status = record (set_status p i status) { error = p.error ++ i ∷ [] }

abbrev pub accept : Planning → ℕ → Planning
accept p i = record (set_status p i apply) { ok = p.ok ++ i ∷ [] }

-- `for (llist_iterator(list, &it); it.has_next(&it); )`
abbrev pub for_each {ℓ} : {S : Type ℓ} → (ℕ → S → S) → List ℕ → S → S
for_each step [] s = s
for_each step (i ∷ is) s = for_each step is (step i s)

previous_step : ℕ → Planning → Planning
previous_step i p = elim (p.specs i).status [
  | apply ↦ record p { ok = p.ok ++ i ∷ [] }
  | circular ↦ record p { ok = p.ok ++ i ∷ [] }
  | no_change ↦ record p { unchanged = p.unchanged ++ i ∷ [] }
  | unchecked ↦ p
  | _ ↦ record p { error = p.error ++ i ∷ [] }
]

unfoldable pub previous_scan : List ℕ → Planning → Planning
unfolding previous_step
previous_scan = for_each previous_step

unfoldable pub no_change_step : ℕ → Planning → Planning
no_change_step i p =
    if is_unchecked (p.specs i).status
    then if str_eq (p.specs i).old_name (p.specs i).new_name
      then record (set_status p i no_change) { unchanged = p.unchanged ++ i ∷ [] }
      else p
    else p

unfoldable pub no_change_scan : List ℕ → Planning → Planning
no_change_scan = for_each no_change_step

unfoldable pub apply_unchecked_step : ℕ → Planning → Planning
apply_unchecked_step i p = if is_unchecked (p.specs i).status then accept p i else p

unfoldable pub apply_unchecked : List ℕ → Planning → Planning
apply_unchecked = for_each apply_unchecked_step

-- The directory that names are looked up in, and what exists.
module _ (file_exists : Bytes → Bool) (work_directory : Bytes) where
  abbrev pub exists_here : Bytes → Bool
  exists_here name = file_exists (cat_files work_directory name)

  unfoldable pub old_missing_step : ℕ → Planning → Planning
  old_missing_step i p =
      if is_unchecked (p.specs i).status
      then if exists_here (p.specs i).old_name then p else refuse p i old_missing
      else p

  unfoldable pub old_missing_scan : List ℕ → Planning → Planning
  old_missing_scan = for_each old_missing_step

  -- The third loop of `new_exists_scan`.
  unfoldable pub new_exists_step : ℕ → Planning → Planning
  new_exists_step i p =
      if is_unchecked (p.specs i).status
      then if exists_here (p.specs i).new_name then refuse p i new_exists else p
      else p

module _ (dict : Dictionary) where
  open dict use {Map, empty, get, put, remove}

  -- What follows a `hmap_put` that returned `spec2`: the spec that had the name is marked, unless it
  -- is already, and then the new one.
  abbrev pub mark_duplicates : ℕ → Option ℕ → Planning → Planning
  mark_duplicates i none p = p
  mark_duplicates i (some k) p =
      refuse (if is_unchecked (p.specs k).status then refuse p k duplicate else p) i duplicate

  unfoldable pub duplicate_step : ℕ → Map × Planning → Map × Planning
  duplicate_step i (m, p) =
      if is_unchecked (p.specs i).status
      then ((put m (p.specs i).new_name i).1, mark_duplicates i (put m (p.specs i).new_name i).0 p)
      else (m, p)

  unfoldable pub duplicate_scan : List ℕ → Planning → Planning
  duplicate_scan renames p = (for_each duplicate_step renames (empty, p)).1

  -- The first two loops of `new_exists_scan`: the old names, and the look-up of the new ones.
  unfoldable pub old_names_step : ℕ → Map × Planning → Map × Planning
  old_names_step i (m, p) =
      if is_unchecked (p.specs i).status then ((put m (p.specs i).old_name i).1, p) else (m, p)

  unfoldable pub new_is_old_step : ℕ → Map × Planning → Map × Planning
  new_is_old_step i (m, p) =
      if is_unchecked (p.specs i).status
      then elim (get m (p.specs i).new_name) [ none ↦ (m, p) | some k ↦ (m, refuse p i new_exists) ]
      else (m, p)

module _ (dict : Dictionary) (file_exists : Bytes → Bool) (work_directory : Bytes) where
  open dict use {Map, empty, get, put, remove}

  unfoldable pub new_exists_scan : List ℕ → Planning → Planning
  new_exists_scan renames p =
      let (m, listed) = for_each (old_names_step dict) renames (empty, p) in
      let (m', looked_up) = for_each (new_is_old_step dict) renames (m, listed) in
      for_each (new_exists_step file_exists work_directory) renames looked_up

  -- The scans of `make_plan` before the programs part.
  unfoldable pub common_scans : List ℕ → Planning → Planning
  common_scans renames p = no_change_scan renames (
      old_missing_scan file_exists work_directory renames
        (duplicate_scan dict renames (previous_scan renames p)))

  -- `make_plan` where the program is qcp.
  unfoldable pub make_copy_plan : List ℕ → Planning → Planning
  make_copy_plan renames p =
      apply_unchecked renames (new_exists_scan renames (common_scans renames p))
