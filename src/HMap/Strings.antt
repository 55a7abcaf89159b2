-- ===== src/HMap/Strings.antt =====
-- The map as the program makes it, over C strings compared by `strcmp` and hashed by `strhash`, as a
-- dictionary for its clients.
use renameutils.Common.{ℕ, Option, none, some, Bytes, str_eq, str_eq_iff, ◌≡◌, if◌then◌else◌}
use renameutils.Dictionary.{Dictionary}
use renameutils.HMap.{Key, HMap, hmap_new, hmap_get, hmap_put, hmap_remove, strhash, same}
use renameutils.HMap.Methods.{IsValid, hmap_new-IsValid, hmap_put-Writes, hmap_remove-Writes}

instance abbrev pub string_key : Key Bytes
string_key = record { equal = str_eq; hash = strhash; equal_iff = str_eq_iff }

abbrev pub Valid : Type 0
Valid = (map : HMap Bytes ℕ) × IsValid map

abbrev pub valid_put : Valid → Bytes → ℕ → Option ℕ × Valid
valid_put m k v = (
  (hmap_put m.0 (some k) v).0,
  ((hmap_put m.0 (some k) v).1, (hmap_put-Writes m.0 (some k) v m.1).1.valid),
)

abbrev pub valid_remove : Valid → Bytes → Option ℕ × Valid
valid_remove m k = (
  (hmap_remove m.0 (some k)).0,
  ((hmap_remove m.0 (some k)).1, (hmap_remove-Writes m.0 (some k) m.1).1.valid),
)

pub get-put_lem :
    (m : Valid) (k j : Bytes) (v : ℕ)
    → hmap_get (valid_put m k v).1.0 (some j)
      ≡ (if str_eq j k then some v else hmap_get m.0 (some j))
unfolding same
get-put_lem m k j v = (hmap_put-Writes m.0 (some k) v m.1).1.reads (some j)

pub get-remove_lem :
    (m : Valid) (k j : Bytes)
    → hmap_get (valid_remove m k).1.0 (some j)
      ≡ (if str_eq j k then none else hmap_get m.0 (some j))
unfolding same
get-remove_lem m k j = (hmap_remove-Writes m.0 (some k) m.1).1.reads (some j)

-- The hash map of src/common/hmap.c meets what its clients ask of a dictionary.
abbrev pub hash_dictionary : Dictionary
hash_dictionary = record {
  Map = Valid;
  empty = (hmap_new, hmap_new-IsValid.0);
  get = λ m k. hmap_get m.0 (some k);
  put = valid_put;
  remove = valid_remove;
  get-empty = λ k. hmap_new-IsValid.1 (some k);
  put_result = λ m k v. (hmap_put-Writes m.0 (some k) v m.1).0;
  get-put = get-put_lem;
  get-remove = get-remove_lem;
}
