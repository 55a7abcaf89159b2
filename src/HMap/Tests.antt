-- ===== src/HMap/Tests.antt =====
-- The map over C strings, runs of it, and its theorems at concrete maps.
use renameutils.Common.{ℕ, ◌+◌, Option, none, some, ◌≡◌, refl, Bytes, codes, str_eq, [], ◌∷◌, arith}
use renameutils.HMap.{
  HMap, hmap_new, hmap_get, hmap_put, hmap_remove, strhash, same, hmap_hash, chain_get,
  chain_assign, chain_unlink, prepend, make_room, hmap_clear,
}
use renameutils.HMap.Strings.{string_key}
use renameutils.HMap.Methods.{
  IsValid, Writes, held, hmap_new-IsValid, hmap_put-Writes, hmap_remove-Writes, hmap_clear-IsValid,
}
use renameutils.HMap.Iterate.{
  hmap_iterator, hmap_foreach_value, collect, iterator-foreach, some_all, foreach_value,
  chain_values,
}

-- "ab" and "bC" have one hash.
hashes : (strhash (codes "ab") ≡ 3105) × (strhash (codes "bC") ≡ 3105)
unfolding strhash
hashes = (refl, refl)

abbrev fresh : HMap Bytes ℕ
fresh = hmap_new

abbrev two : HMap Bytes ℕ
two = (hmap_put (hmap_put fresh (some (codes "ab")) 1).1 (some (codes "bC")) 2).1

run :
    (hmap_get two (some (codes "ab")) ≡ some 1) × ((hmap_remove two (some (codes "bC"))).0 ≡ some 2)
unfolding hmap_put hmap_get hmap_remove hmap_new hmap_hash same chain_get chain_assign chain_unlink
    prepend make_room strhash str_eq
run = (refl, refl)

put_first :
    ((hmap_put fresh (some (codes "ab")) 1).0 ≡ hmap_get fresh (some (codes "ab")))
    × Writes fresh (hmap_put fresh (some (codes "ab")) 1).1 (some (codes "ab")) (some 1)
    × ((hmap_put fresh (some (codes "ab")) 1).1.size + held (hmap_get fresh (some (codes "ab")))
        ≡ fresh.size + 1)
put_first = hmap_put-Writes fresh (some (codes "ab")) 1 hmap_new-IsValid.0

abbrev one : HMap Bytes ℕ
one = (hmap_put fresh (some (codes "ab")) 1).1

hmap_put-Writes_example :
    ((hmap_put one (some (codes "bC")) 2).0 ≡ hmap_get one (some (codes "bC")))
    × Writes one (hmap_put one (some (codes "bC")) 2).1 (some (codes "bC")) (some 2)
    × ((hmap_put one (some (codes "bC")) 2).1.size + held (hmap_get one (some (codes "bC")))
        ≡ one.size + 1)
hmap_put-Writes_example = hmap_put-Writes one (some (codes "bC")) 2 put_first.1.valid

hmap_remove-Writes_example :
    ((hmap_remove one (some (codes "ab"))).0 ≡ hmap_get one (some (codes "ab")))
    × Writes one (hmap_remove one (some (codes "ab"))).1 (some (codes "ab")) none
    × ((hmap_remove one (some (codes "ab"))).1.size + held (hmap_get one (some (codes "ab")))
        ≡ one.size)
hmap_remove-Writes_example = hmap_remove-Writes one (some (codes "ab")) put_first.1.valid

hmap_clear-IsValid_example :
    IsValid (hmap_clear one) × ((j : Option Bytes) → hmap_get (hmap_clear one) j ≡ none)
hmap_clear-IsValid_example = hmap_clear-IsValid one put_first.1.valid

two_values : hmap_foreach_value two ≡ 2 ∷ 1 ∷ []
unfolding hmap_foreach_value foreach_value chain_values hmap_put hmap_new hmap_hash same chain_get
    chain_assign chain_unlink prepend make_room strhash str_eq
two_values = refl

iterator-foreach_example :
    collect 3 two (hmap_iterator two) ≡ some (some_all (hmap_foreach_value two))
iterator-foreach_example = iterator-foreach 3 two (rw two_values (omega arith))
