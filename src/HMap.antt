-- ===== src/HMap.antt =====
-- src/common/hmap.c: a hash map with chained buckets.
--
-- A key is a pointer: `none` is the null pointer, and `some k` one to the value `k`. The hash and
-- comparison functions are the instance `Key`; a comparison is asked only whether it gives 0, and
-- takes no value for equal to the null pointer. A value is never null, so that a null result means
-- that there is no value. The bucket array is a list of chains, indexed within its bounds. The load
-- factor is 0.75F throughout; the product with it is exact, and so rounded down, for fewer than
-- 2 ^ 22 buckets. Counts are below 2 ^ 32.
mod Chain
mod Buckets
pub mod Rehash
pub mod Methods
pub mod Iterate
pub mod Strings
mod Tests
use renameutils.Common.{
  ℕ, zero, suc, ◌+◌, ◌-◌, ◌*◌, ◌/◌, ◌%◌, ◌^◌, Bool, true, false, List, [], ◌∷◌, ◌++◌, Option, none,
  some, ◌≡◌, ◌↔◌, ltb, if◌then◌else◌, Bytes, length, get_or, set, replicate,
}

pub record Key (K : Type 0) : Type 0 where
  pub equal : K → K → Bool
  pub hash : K → ℕ
  pub equal_iff : (a b : K) → (equal a b ≡ true) ↔ (a ≡ b)

-- `HMapEntry`, without the link to the next of its chain.
abbrev pub Entry : Type 0 → Type 0 → Type 0
Entry K V = Option K × V

abbrev pub Chain : Type 0 → Type 0 → Type 0
Chain K V = List (Entry K V)

pub record HMap (K V : Type 0) : Type 0 where
  pub buckets : List (Chain K V)
  pub threshold : ℕ
  pub size : ℕ

abbrev default_capacity : ℕ
default_capacity = 11

-- `(uint32_t) (buckets_length * load_factor)`
abbrev pub load_threshold : ℕ → ℕ
load_threshold n = n * 3 / 4

unfoldable pub hmap_new : {K V : Type 0} → HMap K V
hmap_new = record {
  buckets = replicate default_capacity [];
  threshold = load_threshold default_capacity;
  size = 0;
}

-- `hash << 5` and the subtraction wrap around in `uint32_t`; `c` is the byte as a signed `char`,
-- brought into the same arithmetic.
abbrev word : ℕ
word = 2 ^ 32

abbrev sign_extend : ℕ → ℕ
sign_extend c = if ltb c 128 then c else c + word - 256

unfoldable pub strhash_from : ℕ → Bytes → ℕ
strhash_from hash [] = hash
strhash_from hash (c ∷ str) =
    strhash_from ((hash * 32 % word + word - hash + sign_extend c) % word) str

unfoldable pub strhash : Bytes → ℕ
unfolding strhash_from
strhash = strhash_from 0

module _ {K : Type 0} ⦃key : Key K⦄ where
  -- `hmap_hash`, for an array of `n` buckets.
  unfoldable pub hmap_hash : ℕ → Option K → ℕ
  hmap_hash n none = 0
  hmap_hash n (some k) = key.hash k % n

  -- The test of the two loops: by `== NULL` for a null key, and by `compare` otherwise.
  unfoldable pub same : Option K → Option K → Bool
  same none none = true
  same none (some b) = false
  same (some a) none = false
  same (some a) (some b) = key.equal a b

module _ {K V : Type 0} ⦃key : Key K⦄ where
  unfoldable pub chain_get : Option K → Chain K V → Option V
  chain_get k [] = none
  chain_get k (e ∷ c) = if same k e.0 then some e.1 else chain_get k c

  -- `entry->value = value` at the first entry of the key.
  unfoldable pub chain_assign : Option K → V → Chain K V → Chain K V
  chain_assign k v [] = []
  chain_assign k v (e ∷ c) = if same k e.0 then (e.0, v) ∷ c else e ∷ chain_assign k v c

  -- The first entry of the key is unlinked.
  unfoldable pub chain_unlink : Option K → Chain K V → Chain K V
  chain_unlink k [] = []
  chain_unlink k (e ∷ c) = if same k e.0 then c else e ∷ chain_unlink k c

  abbrev pub home_chain : List (Chain K V) → Option K → Chain K V
  home_chain bs k = get_or bs (hmap_hash (length bs) k) []

  unfoldable pub hmap_get : HMap K V → Option K → Option V
  hmap_get map k = chain_get k (home_chain map.buckets k)

  unfoldable pub hmap_contains_key : HMap K V → Option K → Bool
  hmap_contains_key map k = elim (hmap_get map k) [ none ↦ false | some v ↦ true ]

  -- The inner loop of `hmap_rehash`: an entry goes to the end of its new chain.
  unfoldable pub move_chain : Chain K V → List (Chain K V) → List (Chain K V)
  move_chain [] fresh = fresh
  move_chain (e ∷ c) fresh =
      move_chain c (set fresh (hmap_hash (length fresh) e.0) (home_chain fresh e.0 ++ e ∷ []))

  unfoldable pub move_all : List (Chain K V) → List (Chain K V) → List (Chain K V)
  unfolding move_chain
  move_all [] fresh = fresh
  move_all (c ∷ bs) fresh = move_all bs (move_chain c fresh)

  unfoldable pub hmap_rehash : HMap K V → HMap K V
  hmap_rehash map =
      let n = length map.buckets * 2 + 1 in
      record map { buckets = move_all map.buckets (replicate n []); threshold = load_threshold n }

  -- The new entry in front of its chain.
  unfoldable pub prepend : HMap K V → Option K → V → HMap K V
  prepend map k v = record map {
    buckets =
        set map.buckets (hmap_hash (length map.buckets) k) ((k, v) ∷ home_chain map.buckets k);
  }

  -- `map->size++`, and the larger array where the size has passed the threshold.
  unfoldable pub make_room : HMap K V → HMap K V
  make_room map =
      let counted = record map { size = map.size + 1 } in
      if ltb counted.threshold counted.size then hmap_rehash counted else counted

  -- The value that is replaced, and the map.
  unfoldable pub hmap_put : HMap K V → Option K → V → Option V × HMap K V
  hmap_put map k v =
      let i = hmap_hash (length map.buckets) k in
      let chain = home_chain map.buckets k in
      elim (chain_get k chain) [
        | some old ↦ (some old, record map { buckets = set map.buckets i (chain_assign k v chain) })
        | none ↦ (none, prepend (make_room map) k v)
      ]

  unfoldable pub hmap_remove : HMap K V → Option K → Option V × HMap K V
  hmap_remove map k =
      let i = hmap_hash (length map.buckets) k in
      let chain = home_chain map.buckets k in
      elim (chain_get k chain) [
        | some old ↦ (
          some old,
          record map { buckets = set map.buckets i (chain_unlink k chain); size = map.size - 1 },
        )
        | none ↦ (none, map)
      ]

  unfoldable pub hmap_clear : HMap K V → HMap K V
  hmap_clear map = record map { buckets = replicate (length map.buckets) []; size = 0 }
