-- ===== src/Dictionary.antt =====
-- The interface of src/common/hmap.h that src/plan.c and src/list.c use: a map from file names to
-- file specs, which are numbered. HMap/Strings fills it.
use renameutils.Common.{ℕ, Option, none, some, Bytes, str_eq, ◌≡◌, if◌then◌else◌}

pub record Dictionary : Type 1 where
  pub Map : Type 0
  pub empty : Map
  pub get : Map → Bytes → Option ℕ
  -- The value that the name had, and the map.
  pub put : Map → Bytes → ℕ → Option ℕ × Map
  pub remove : Map → Bytes → Option ℕ × Map
  pub get-empty : (k : Bytes) → get empty k ≡ none
  pub put_result : (m : Map) (k : Bytes) (v : ℕ) → (put m k v).0 ≡ get m k
  pub get-put :
      (m : Map) (k j : Bytes) (v : ℕ)
      → get (put m k v).1 j ≡ (if str_eq j k then some v else get m j)
  pub get-remove :
      (m : Map) (k j : Bytes) → get (remove m k).1 j ≡ (if str_eq j k then none else get m j)
