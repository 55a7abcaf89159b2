-- ===== src/Plan/Sort.antt =====
-- `topologic_sort` of src/plan.c.
use renameutils.Common.{
  ℕ, zero, suc, Bool, true, false, List, [], ◌∷◌, none, some, if◌then◌else◌, Bytes, length,
}
use renameutils.Dictionary.{Dictionary}
use renameutils.Plan.{Planning, is_unchecked, write_spec, accept, exists_here}

-- `spec->prev_spec = depend; depend->next_spec = spec`
unfoldable pub link : Planning → ℕ → ℕ → Planning
link p i depend =
    let specs' = write_spec p.specs i (record (p.specs i) { prev_spec = some depend }) in
    record p { specs = write_spec specs' depend (record (specs' depend) { next_spec = some i }) }

module _ (dict : Dictionary) where
  open dict use {Map, empty, get, put, remove}

  -- The plan, and the old names of the specs in `ok` that nothing has taken yet.
  pub record Sorting : Type 0 where
    pub available : Map
    pub planning : Planning

  module _ (file_exists : Bytes → Bool) (work_directory : Bytes) where
    -- The first loop, and the list `pending` that it leaves.
    unfoldable pub find_free : List ℕ → Sorting → List ℕ × Sorting
    find_free [] s = ([], s)
    find_free (i ∷ is) s =
        let spec = s.planning.specs i in
        if is_unchecked spec.status
        then if exists_here file_exists work_directory spec.new_name
          then (let (pending, s') = find_free is s in (i ∷ pending, s'))
          else find_free is (record {
            available = (put s.available spec.old_name i).1;
            planning = accept s.planning i;
          })
        else find_free is s

  -- A pending spec whose new name has become available.
  unfoldable pub take_free : Sorting → ℕ → ℕ → Sorting
  unfolding link
  take_free s i depend =
      let spec = s.planning.specs i in
      record {
        available = (remove (put s.available spec.old_name i).1 spec.new_name).1;
        planning = accept (link s.planning i depend) i;
      }

  -- One round over `pending`: what is left of it, and `changed`.
  unfoldable pub sort_round : List ℕ → Sorting → List ℕ × Bool × Sorting
  sort_round [] s = ([], false, s)
  sort_round (i ∷ is) s = elim (get s.available (s.planning.specs i).new_name) [
    | none ↦ let (pending, changed, s') = sort_round is s in (i ∷ pending, changed, s')
    | some depend ↦
        let (pending, changed, s') = sort_round is (take_free s i depend) in (pending, true, s')
  ]

  -- The loop `do … while (changed)`, and whether it ended by its test, not for want of fuel.
  unfoldable pub sort_rounds : ℕ → List ℕ → Sorting → List ℕ × Sorting × Bool
  sort_rounds zero pending s = (pending, s, false)
  sort_rounds (suc fuel) pending s =
      let (pending', changed, s') = sort_round pending s in
      elim changed [ true ↦ sort_rounds fuel pending' s' | false ↦ (pending', s', true) ]

  -- Every round but the last takes a spec out of `pending`, so one more round than `pending` is long
  -- is enough.
  unfoldable pub topologic_sort :
      (Bytes → Bool) → Bytes → List ℕ → Planning → List ℕ × Sorting × Bool
  topologic_sort file_exists work_directory renames p =
      let (pending, s) =
        find_free file_exists work_directory renames (record { available = empty; planning = p }) in
      sort_rounds (suc (length pending)) pending s
