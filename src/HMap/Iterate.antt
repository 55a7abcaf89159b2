-- ===== src/HMap/Iterate.antt =====
-- The iterator of the map, and the loops over its values.
use native.Mathlib.Numerals.{add-one}
use renameutils.Common.{
  ℕ, zero, suc, ◌+◌, List, [], ◌∷◌, ◌++◌, Option, none, some, ◌≡◌, refl, ◌∙◌, length, drop,
  drop-suc_lem, Bool, ◌<◌, arith, true, false, if◌then◌else◌,
}
use renameutils.HMap.{Chain, Entry, HMap}

-- `HMapIteratorPriv` without the map: the bucket that is read, and the entry with those behind it.
pub record HMapIterator (K V : Type 0) : Type 0 where
  pub index : ℕ
  pub rest : Chain K V

pub some_all {ℓ} : {V : Type ℓ} → List V → List (Option V)
some_all [] = []
some_all (v ∷ vs) = some v ∷ some_all vs

drop-suc {ℓ} :
    {A : Type ℓ} (xs : List A) (i : ℕ) {x : A} {rest : List A}
    → drop i xs ≡ x ∷ rest
    → drop (i + 1) xs ≡ rest
drop-suc xs i e = rw add-one (drop-suc_lem xs i e)

module _ {K V : Type 0} where
  -- The loop that looks for the next bucket with an entry; its argument are the buckets from `i` on.
  unfoldable pub seek : List (Chain K V) → ℕ → HMapIterator K V
  seek [] i = record { index = i; rest = [] }
  seek ([] ∷ bs) i = seek bs (i + 1)
  seek ((e ∷ c) ∷ bs) i = record { index = i; rest = e ∷ c }

  unfoldable pub hmap_iterator : HMap K V → HMapIterator K V
  unfolding seek
  hmap_iterator map = seek map.buckets 0

  unfoldable pub hmap_iterator_has_next : HMapIterator K V → Bool
  hmap_iterator_has_next it = elim it.rest [ [] ↦ false | e ∷ c ↦ true ]

  -- Where the chain goes on, and where it has ended.
  unfoldable pub advance : List (Chain K V) → ℕ → Chain K V → HMapIterator K V
  advance bs index [] = seek (drop (index + 1) bs) (index + 1)
  advance bs index (e ∷ c) = record { index = index; rest = e ∷ c }

  unfoldable pub next_of : List (Chain K V) → ℕ → Chain K V → Option V × HMapIterator K V
  next_of bs index [] = (none, record { index = index; rest = [] })
  next_of bs index (e ∷ c) = (some e.1, advance bs index c)

  unfoldable pub hmap_iterator_next : HMap K V → HMapIterator K V → Option V × HMapIterator K V
  unfolding next_of advance seek
  hmap_iterator_next map it = next_of map.buckets it.index it.rest

  -- `while (it.has_next(&it))`: the values that the calls of `next` return, and `none` where `has_next`
  -- holds after `fuel` calls.
  unfoldable pub collect : ℕ → HMap K V → HMapIterator K V → Option (List (Option V))
  collect zero map it = none
  collect (suc fuel) map it =
      let (v, it') = hmap_iterator_next map it in
      let rest = collect fuel map it' in
      if hmap_iterator_has_next it
      then elim rest [ none ↦ none | some values ↦ some (v ∷ values) ]
      else some []

  -- The arguments of the calls that `hmap_foreach_value` makes.
  unfoldable pub chain_values : Chain K V → List V
  chain_values [] = []
  chain_values (e ∷ c) = e.1 ∷ chain_values c

  unfoldable pub foreach_value : List (Chain K V) → List V
  foreach_value [] = []
  foreach_value (c ∷ bs) = chain_values c ++ foreach_value bs

  unfoldable pub hmap_foreach_value : HMap K V → List V
  unfolding foreach_value chain_values
  hmap_foreach_value map = foreach_value map.buckets

  -- What is left to return: nothing once there is no entry.
  left_of : List (Chain K V) → ℕ → Chain K V → List V
  left_of bs index [] = []
  left_of bs index (e ∷ c) = chain_values (e ∷ c) ++ foreach_value (drop (index + 1) bs)

  seek-left_of :
      (bs : List (Chain K V)) (i : ℕ) (rest : List (Chain K V))
      → drop i bs ≡ rest
      → left_of bs (seek rest i).index (seek rest i).rest ≡ foreach_value rest
  unfolding left_of seek foreach_value chain_values
  seek-left_of bs i [] e = refl
  seek-left_of bs i ([] ∷ rest) e = seek-left_of bs (i + 1) rest (drop-suc bs i e)
  seek-left_of bs i ((e ∷ c) ∷ rest) h = rw (drop-suc bs i h)

  advance-left_of :
      (bs : List (Chain K V)) (i : ℕ) (c : Chain K V)
      → left_of bs (advance bs i c).index (advance bs i c).rest
        ≡ chain_values c ++ foreach_value (drop (i + 1) bs)
  unfolding advance
  advance-left_of bs i [] = unfold chain_values in seek-left_of bs (i + 1) _ refl
  advance-left_of bs i (e ∷ c) = unfold left_of in refl

  collect_step :
      (fuel : ℕ) (map : HMap K V) (i : ℕ) (e : Entry K V) (c : Chain K V) (values : List (Option V))
      → collect fuel map (advance map.buckets i c) ≡ some values
      → collect (suc fuel) map (record { index = i; rest = e ∷ c }) ≡ some (some e.1 ∷ values)
  unfolding collect hmap_iterator_next hmap_iterator_has_next
  collect_step fuel map i e c values h = rw h refl

  collect_lem :
      (fuel : ℕ) (map : HMap K V) (i : ℕ) (c : Chain K V) (vs : List V)
      → left_of map.buckets i c ≡ vs
      → length vs < fuel
      → collect fuel map (record { index = i; rest = c }) ≡ some (some_all vs)
  unfolding collect some_all hmap_iterator_has_next
  collect_lem zero map i c vs h f = absurd (ground arith)
  collect_lem (suc fuel) map i [] [] h f = refl
  collect_lem (suc fuel) map i [] (v ∷ vs) h f = unfold left_of in cc h
  collect_lem (suc fuel) map i (e ∷ c) [] h f = unfold left_of chain_values in cc h
  collect_lem (suc fuel) map i (e ∷ c) (v ∷ vs) h f =
      let h' : e.1 ∷ (chain_values c ++ foreach_value (drop (i + 1) map.buckets)) ≡ v ∷ vs =
        unfold left_of chain_values in h in
      let next = advance map.buckets i c in
      let rest =
        collect_lem fuel map next.index next.rest vs (advance-left_of map.buckets i c ∙ (cc h'))
          (ground arith) in
      let first : e.1 ≡ v = cc h' in rw (← first) (collect_step fuel map i e c (some_all vs) rest)

  -- An iterator of any map returns the values in the order of `hmap_foreach_value`, each once, while
  -- `has_next` holds, and then `has_next` fails: the loop needs no more than one test more than there
  -- are values.
  pub iterator-foreach :
      (fuel : ℕ) (map : HMap K V)
      → length (hmap_foreach_value map) < fuel
      → collect fuel map (hmap_iterator map) ≡ some (some_all (hmap_foreach_value map))
  unfolding hmap_iterator hmap_foreach_value
  iterator-foreach fuel map f =
      collect_lem fuel map _ _ (foreach_value map.buckets)
        (seek-left_of map.buckets 0 map.buckets refl) f
