-- ===== src/Plan/Resolve.antt =====
-- `cross_reference_resolve` of src/plan.c, and `make_plan` where the program is qmv; `new_file_spec`
-- of src/list.c.
pub mod Chain
pub mod Follow
pub mod Marks
pub mod Circular
pub mod Group
pub mod Relinked
pub mod CircularLinks
pub mod Names
pub mod Sound
pub mod Added
pub mod Step
pub mod Each
pub mod Idle
pub mod Whole
mod Tests
use renameutils.Common.{
  ℕ, zero, suc, ◌+◌, ◌/◌, ◌%◌, Bool, true, false, ◌||◌, List, [], ◌∷◌, ◌++◌, Option, none, some,
  ◌==◌, if◌then◌else◌, Bytes, codes, length,
}
use renameutils.Dictionary.{Dictionary}
use renameutils.Plan.{
  FileSpec, unchecked, apply, circular, new_exists, is_unchecked, Planning, write_spec, set_status,
  refuse, for_each, apply_unchecked, exists_here, common_scans,
}
use renameutils.Plan.Sort.{topologic_sort}

-- The plan, and the number of the next spec that is allocated.
pub record Resolving : Type 0 where
  pub planning : Planning
  pub fresh : ℕ

abbrev pub write_next : Planning → ℕ → Option ℕ → Planning
write_next p i o = record p { specs = write_spec p.specs i (record (p.specs i) { next_spec = o }) }

abbrev pub write_prev : Planning → ℕ → Option ℕ → Planning
write_prev p i o = record p { specs = write_spec p.specs i (record (p.specs i) { prev_spec = o }) }

-- `new_file_spec`, and the writes to its fields that follow.
abbrev pub allocate : Planning → ℕ → FileSpec → Planning
allocate p i spec = record p { specs = write_spec p.specs i spec }

abbrev pub add_first : Planning → ℕ → Planning
add_first p i = record p { ok = i ∷ p.ok }

-- `%d` of a number that is not negative; a number has fewer digits than `fuel`.
abbrev decimal_digits : ℕ → ℕ → Bytes → Bytes
decimal_digits zero n digits = digits
decimal_digits (suc fuel) n digits =
    let rest = decimal_digits fuel (n / 10) ((48 + n % 10) ∷ digits) in
    if n / 10 == 0 then (48 + n % 10) ∷ digits else rest

-- `"%s-%d"`
unfoldable pub temporary_name : Bytes → ℕ → Bytes
temporary_name old_name count = old_name ++ codes "-" ++ decimal_digits 20 count []

-- The first number from `count` on whose name is not taken; none if `fuel` numbers are.
unfoldable pub find_temporary : (Bytes → Bool) → Bytes → ℕ → ℕ → Option Bytes
find_temporary taken old_name zero count = none
find_temporary taken old_name (suc fuel) count = elim (taken (temporary_name old_name count)) [
  | true ↦ find_temporary taken old_name fuel (suc count)
  | false ↦ some (temporary_name old_name count)
]

-- `for (s2 = s1->next_spec; s2 != NULL; s2 = s2->next_spec)`
unfoldable pub mark_circular : ℕ → Option ℕ → Planning → Planning
mark_circular zero o p = p
mark_circular (suc fuel) none p = p
mark_circular (suc fuel) (some s2) p =
    let p' = add_first (set_status p s2 circular) s2 in
    mark_circular fuel (p'.specs s2).next_spec p'

-- The links of the specs in `ok` up to `s1`.
unfoldable pub relink : List ℕ → ℕ → ℕ → Planning → Planning
relink [] s2 s1 p = p
relink (spec ∷ rest) s2 s1 p =
    let p' = write_prev (write_next p s2 (some spec)) spec (some s2) in
    let more = relink rest spec s1 p' in if spec == s1 then p' else more

-- The rest of the loop's body, with the temporary name that has been found: the copy of `s1` is `copy`,
-- and the extra rename is the spec after it.
unfoldable pub add_copy : Planning → ℕ → ℕ → Planning
add_copy p s1 copy =
    let p' = allocate p copy (record (p.specs s1) { status = circular }) in
    let p'' = set_status (add_first p' copy) s1 apply in write_prev (write_next p'' s1 none) s1 none

unfoldable pub add_extra : Planning → ℕ → Bytes → Planning
add_extra p copy tmp_name =
    let p' = allocate p (suc copy) (record {
      old_name = (p.specs copy).old_name;
      new_name = tmp_name;
      prev_spec = none;
      next_spec = none;
      status = circular;
    }) in
    let p'' = add_first p' (suc copy) in
    record p'' {
      specs = write_spec p''.specs copy (record (p''.specs copy) { old_name = tmp_name });
    }

unfoldable pub relink_first : List ℕ → ℕ → Planning → Planning
relink_first [] s1 p = p
relink_first (s2 ∷ rest) s1 p = relink rest s2 s1 p

module _ (dict : Dictionary) where
  open dict use {Map, empty, get, put}

  -- The first loop: `map_old` and `map_new`.
  unfoldable pub names_step : Planning → ℕ → Map × Map → Map × Map
  names_step p i (map_old, map_new) = elim (p.specs i).status [
    | unchecked ↦ ((put map_old (p.specs i).old_name i).1, (put map_new (p.specs i).new_name i).1)
    | apply ↦ (map_old, (put map_new (p.specs i).new_name i).1)
    | _ ↦ (map_old, map_new)
  ]

  unfoldable pub names_maps : List ℕ → Planning → Map × Map
  names_maps renames p = for_each (names_step p) renames (empty, empty)

  -- `for (;;)`, from the new names to the old.
  unfoldable pub follow : ℕ → Map → ℕ → ℕ → ℕ → Planning → Planning
  follow zero map_old s1 s2 prev_circular p = p
  follow (suc fuel) map_old s1 s2 prev_circular p = elim (get map_old (p.specs s2).new_name) [
    | none ↦ write_next p s1 none
    | some s2' ↦ elim (is_unchecked (p.specs s2').status) [
      | false ↦ write_next p s1 none
      | true ↦ elim (s2' == s1) [
        | true ↦ write_next p prev_circular none
        | false ↦ follow fuel map_old s1 s2' s2' (write_next p prev_circular (some s2'))
      ]
    ]
  ]

  module _ (file_exists : Bytes → Bool) (work_directory : Bytes) where
    -- `file_exists(fullname) || hmap_contains_key(map_new, tmp_name)`
    unfoldable pub is_taken : Map → Bytes → Bool
    is_taken map_new name =
        exists_here file_exists work_directory name
        || elim (get map_new name) [ none ↦ false | some k ↦ true ]

    -- What follows the search for a circular set that was found.
    unfoldable pub resolve_circular : ℕ → ℕ → Bytes → Resolving → Resolving
    resolve_circular size s1 tmp_name r =
        let copied = add_copy r.planning s1 r.fresh in
        let marked = mark_circular size (copied.specs r.fresh).next_spec copied in
        let extra = add_extra marked r.fresh tmp_name in
        record {
          planning = write_next (relink_first extra.ok r.fresh extra) r.fresh none;
          fresh = suc (suc r.fresh);
        }

    -- The second loop at a spec. `limit` names are tried for the temporary one; `size` bounds the
    -- length of a circular set.
    unfoldable pub resolve_step : ℕ → ℕ → Map × Map → ℕ → Option Resolving → Option Resolving
    resolve_step limit size (map_old, map_new) s1 none = none
    resolve_step limit size (map_old, map_new) s1 (some r) =
        elim (is_unchecked (r.planning.specs s1).status) [
          | false ↦ some r
          | true ↦
              let p = follow size map_old s1 s1 s1 r.planning in
              elim (p.specs s1).next_spec [
                | none ↦ some (record r { planning = refuse p s1 new_exists })
                | some _ ↦ elim (find_temporary (is_taken map_new) (p.specs s1).old_name limit 1) [
                  | none ↦ none
                  | some tmp_name ↦
                      some (resolve_circular size s1 tmp_name (record r { planning = p }))
                ]
              ]
        ]

    unfoldable pub cross_reference_resolve : ℕ → List ℕ → Resolving → Option Resolving
    cross_reference_resolve limit renames r =
        for_each (resolve_step limit (length renames) (names_maps renames r.planning)) renames
          (some r)

    -- `make_plan` where the program is qmv.
    unfoldable pub make_rename_plan : ℕ → List ℕ → Resolving → Option Resolving
    make_rename_plan limit renames r =
        let sorted =
          topologic_sort dict file_exists work_directory renames
            (common_scans dict file_exists work_directory renames r.planning) in
        elim (cross_reference_resolve limit renames (record r { planning = sorted.1.planning })) [
          | none ↦ none
          | some r' ↦ some (record r' { planning = apply_unchecked renames r'.planning })
        ]
