-- ===== src/Plan/Resolve/Names.antt =====
-- The maps of `cross_reference_resolve`, and its search for a temporary name.
use renameutils.Common.{
  ℕ, zero, suc, ◌+◌, ◌<◌, Bool, false, List, [], ◌∷◌, some, ◌≡◌, inl, inr, refl, sym, ap, ◌∙◌,
  arith, Bytes, str_eq, str_eq_iff, Bool-cases, same_some, Option-cases,
}
use renameutils.Dictionary.{Dictionary}
use renameutils.Plan.{Status, unchecked, apply, Planning, for_each, exists_here}
use renameutils.Plan.Narrow.{In}
use renameutils.Plan.Resolve.{temporary_name, find_temporary, names_step, names_maps, is_taken}

-- A name that is found is not taken.
pub find_temporary-free :
    (taken : Bytes → Bool) (old_name : Bytes) (fuel count : ℕ) (tmp_name : Bytes)
    → find_temporary taken old_name fuel count ≡ some tmp_name
    → taken tmp_name ≡ false
unfolding find_temporary
find_temporary-free taken old_name zero count tmp_name e = absurd (ground (arith, e))
find_temporary-free taken old_name (suc fuel) count tmp_name e =
    elim (Bool-cases (taken (temporary_name old_name count))) [
      | inl yes' ↦
          find_temporary-free taken old_name fuel (suc count) tmp_name
            (rw (find_temporary, yes') at e)
      | inr no' ↦ let f = rw (find_temporary, no') at e in rw (sym (same_some f)) no'
    ]

-- If one of the names that are tried is not taken, one is found.
pub find_temporary-some :
    (taken : Bytes → Bool) (old_name : Bytes) (fuel count n : ℕ)
    → n < fuel
    → taken (temporary_name old_name (n + count)) ≡ false
    → (tmp_name : Bytes) × (find_temporary taken old_name fuel count ≡ some tmp_name)
unfolding find_temporary
find_temporary-some taken old_name zero count n small free = absurd (ground arith)
find_temporary-some taken old_name (suc fuel) count zero small free =
    let free' : taken (temporary_name old_name count) ≡ false =
      ap (λ c. taken (temporary_name old_name c)) (omega arith) ∙ free in
    (temporary_name old_name count, rw (find_temporary, free') refl)
find_temporary-some taken old_name (suc fuel) count (suc n) small free =
    elim (Bool-cases (taken (temporary_name old_name count))) [
      | inr no' ↦ (temporary_name old_name count, rw (find_temporary, no') refl)
      | inl yes' ↦
          let free' : taken (temporary_name old_name (n + suc count)) ≡ false =
            ap (λ c. taken (temporary_name old_name c)) (omega arith) ∙ free in
          rw (find_temporary, yes')
            (find_temporary-some taken old_name fuel (suc count) n (omega arith) free')
    ]

module _ (dict : Dictionary) where
  open dict use {Map, empty, get, put}

  -- The keys of both maps come from the specs of the list.
  abbrev Known : List ℕ → (ℕ → Bytes) → Map → Type 0
  Known renames name m = (n : Bytes) (k : ℕ) → get m n ≡ some k → In k renames × (name k ≡ n)

  Known-put :
      (renames : List ℕ) (name : ℕ → Bytes) (m : Map) (i : ℕ)
      → In i renames
      → Known renames name m
      → Known renames name (put m (name i) i).1
  Known-put renames name m i h known n k e =
      let e' = sym (dict.get-put m (name i) n i) ∙ e in
      elim (Bool-cases (str_eq n (name i))) [
        | inl at ↦
            let back : k ≡ i = sym (same_some (rw at at e')) in
            let same : n ≡ name i = ground (arith, at, str_eq_iff n (name i)) in
            (rw back h, rw (back, same) refl)
        | inr off ↦ known n k (rw off at e')
      ]

  module _ (renames : List ℕ) (p : Planning) where
    abbrev Both : Map × Map → Type 0
    Both m =
        Known renames (λ j. (p.specs j).old_name) m.0
        × Known renames (λ j. (p.specs j).new_name) m.1

    names_step-Both :
        (i : ℕ) (m : Map × Map) (status : Status)
        → (p.specs i).status ≡ status
        → In i renames
        → Both m
        → Both (names_step dict p i m)
    unfolding names_step
    names_step-Both i (a, b) unchecked e h (ka, kb) =
        rw (names_step, e)
          (
            Known-put renames (λ j. (p.specs j).old_name) a i h ka,
            Known-put renames (λ j. (p.specs j).new_name) b i h kb,
          )
    names_step-Both i (a, b) apply e h (ka, kb) =
        rw (names_step, e) (ka, Known-put renames (λ j. (p.specs j).new_name) b i h kb)
    names_step-Both i (a, b) status e h (ka, kb) = rw (names_step, e) (ka, kb)

    names_each-Both :
        (is : List ℕ) (m : Map × Map)
        → ((j : ℕ) → In j is → In j renames)
        → Both m
        → Both (for_each (names_step dict p) is m)
    names_each-Both [] m sub b = b
    names_each-Both (i ∷ is) m sub b =
        names_each-Both is (names_step dict p i m) (λ j h. sub j (inr h))
          (names_step-Both i m (p.specs i).status refl (sub i (inl refl)) b)

    pub names_maps-Both : Both (names_maps dict renames p)
    unfolding names_maps
    names_maps-Both =
        names_each-Both renames (empty, empty) (λ j h. h)
          (
            λ n k e. absurd (let g = dict.get-empty n in ground (arith, g, e)),
            λ n k e. absurd (let g = dict.get-empty n in ground (arith, g, e)),
          )

    module _ (file_exists : Bytes → Bool) (work_directory : Bytes) where
      -- A name that no file has, and that is no rename's new name, is not taken.
      pub is_taken_free :
          (name : Bytes)
          → exists_here file_exists work_directory name ≡ false
          → ((j : ℕ) → In j renames → (p.specs j).new_name ≡ name → ⊥)
          → is_taken dict file_exists work_directory (names_maps dict renames p).1 name ≡ false
      unfolding is_taken
      is_taken_free name gone unused =
          elim (Option-cases (get (names_maps dict renames p).1 name)) [
            | inl e ↦ rw (gone, e) refl
            | inr (k, e) ↦ let (h, at) = names_maps-Both.1 name k e in absurd (unused k h at)
          ]

pub is_taken-exists :
    (dict : Dictionary) (file_exists : Bytes → Bool) (work_directory : Bytes) (map_new : dict.Map)
    (name : Bytes)
    → is_taken dict file_exists work_directory map_new name ≡ false
    → exists_here file_exists work_directory name ≡ false
unfolding is_taken
is_taken-exists dict file_exists work_directory map_new name e = ground (arith, e)
