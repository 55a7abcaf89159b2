-- ===== src/HMap/Methods.antt =====
-- The operations of the map: the invariant is kept, and the map changes at one key.
use renameutils.Common.{
  ℕ, suc, ◌+◌, ◌*◌, ◌-◌, ◌<◌, ◌≤◌, true, List, [], ◌∷◌, Option, none, some, ◌≡◌, refl, sym, ap, ◌∙◌,
  arith, ltb, if◌then◌else◌, length, set, Bool-cases, inl, inr, Option-cases,
}
use renameutils.HMap.{
  Key, Entry, Chain, HMap, hmap_hash, same, chain_get, chain_assign, chain_unlink, home_chain,
  hmap_new, hmap_get, hmap_put, prepend, make_room, hmap_remove, hmap_rehash, load_threshold,
  hmap_clear,
}
use renameutils.HMap.Chain.{
  Distinct, same_iff, chain_get-assign, chain_get-unlink, assign-Distinct, unlink-Distinct,
  length-assign, length-unlink,
}
use renameutils.HMap.Buckets.{
  total, total-set, total-replicate, hash-lt, IsPlaced, IsDistinct, view, update, Means, set-Means,
}
use renameutils.HMap.Rehash.{rehash-Means, empty-Means, Means-width}

-- The number of values at a key.
abbrev pub held {ℓ} : {V : Type ℓ} → Option V → ℕ
held none = 0
held (some v) = 1

module _ {K V : Type 0} ⦃key : Key K⦄ where
  -- There is a bucket, every entry is in place and no key stands twice, the entries are counted, and
  -- at most three quarters as many as there are buckets.
  pub record IsValid (map : HMap K V) : Type 0 where
    pub roomy : 0 < length map.buckets
    pub placed : IsPlaced map.buckets
    pub distinct : IsDistinct map.buckets
    pub counted : map.size ≡ total map.buckets
    pub limit : map.threshold ≡ load_threshold (length map.buckets)
    pub sparse : map.size ≤ map.threshold

  -- The outcome of a write of `r` at `k`.
  pub record Writes (map map' : HMap K V) (k : Option K) (r : Option V) : Type 0 where
    pub valid : IsValid map'
    pub reads : (j : Option K) → hmap_get map' j ≡ (if same j k then r else hmap_get map j)

  -- A map that means `f` and has one entry more counted than it holds.
  record HasRoom (f : Option K → Option V) (room : HMap K V) : Type 0 where
    means : Means (length room.buckets) f room.buckets
    roomy : 0 < length room.buckets
    counted : room.size ≡ suc (total room.buckets)
    limit : room.threshold ≡ load_threshold (length room.buckets)
    sparse : room.size ≤ room.threshold

  prepend-IsValid :
      (room : HMap K V) (k : Option K) (v : V) (f : Option K → Option V)
      → HasRoom f room
      → f k ≡ none
      → IsValid (prepend room k v)
        × ((j : Option K) → hmap_get (prepend room k v) j ≡ update f k (some v) j)
  unfolding hmap_get chain_get prepend
  prepend-IsValid room k v f h new =
      let bs = room.buckets in
      let c = home_chain bs k in
      let index = hmap_hash (length bs) k in
      let w =
        set-Means bs h.roomy k ((k, v) ∷ c) f (some v) h.means
          (h.means.reads k ∙ new, h.means.distinct index) (λ j. refl) in
      (
        record {
          roomy = rw w.width h.roomy;
          placed = w.placed;
          distinct = w.distinct;
          counted =
              omega
                (arith, h.counted, total-set bs index ((k, v) ∷ c) (hash-lt (length bs) k h.roomy));
          limit = rw w.width h.limit;
          sparse = h.sparse;
        },
        w.reads,
      )

  module _ (map : HMap K V) (v : IsValid map) (k : Option K) where
    abbrev chain : Chain K V
    chain = home_chain map.buckets k

    abbrev index : ℕ
    index = hmap_hash (length map.buckets) k

    current : Means (length map.buckets) (view map.buckets) map.buckets
    current = record { width = refl; placed = v.placed; distinct = v.distinct; reads = λ j. refl }

    -- A write to the home chain of `k`.
    write-Writes :
        (r : Option V) (c : Chain K V) (n : ℕ)
        → Distinct c
        → ((j : Option K) → chain_get j c ≡ (if same j k then r else chain_get j chain))
        → n + length chain ≡ map.size + length c
        → n ≤ map.size
        → Writes map (record map { buckets = set map.buckets index c; size = n }) k r
    unfolding hmap_get
    write-Writes r c n d reads count small =
        let m = set-Means map.buckets v.roomy k c (view map.buckets) r current d reads in
        record {
          valid = record {
            roomy = rw m.width v.roomy;
            placed = m.placed;
            distinct = m.distinct;
            counted = omega (
              arith,
              v.counted,
              total-set map.buckets index c (hash-lt (length map.buckets) k v.roomy),
            );
            limit = rw m.width v.limit;
            sparse = omega (arith, v.sparse);
          };
          reads = m.reads;
        }

    rehash-HasRoom :
        ltb map.threshold (map.size + 1) ≡ true
        → HasRoom (view map.buckets) (hmap_rehash (record map { size = map.size + 1 }))
    rehash-HasRoom full =
        let counted = record map { size = map.size + 1 } in
        let (m, same_total) = rehash-Means counted v.roomy v.placed v.distinct in
        let limit : (hmap_rehash counted).threshold ≡ load_threshold (length map.buckets * 2 + 1) =
          unfold hmap_rehash in refl in
        let size : (hmap_rehash counted).size ≡ map.size + 1 = unfold hmap_rehash in refl in
        record {
          means = Means-width (sym m.width) m;
          roomy = omega (arith, m.width);
          counted = omega (arith, same_total, v.counted, size);
          limit = limit ∙ ap load_threshold (sym m.width);
          sparse = omega (arith, v.sparse, v.limit, limit, size);
        }

    make_room-HasRoom : HasRoom (view map.buckets) (make_room map)
    unfolding make_room
    make_room-HasRoom = elim (Bool-cases (ltb map.threshold (map.size + 1))) [
      | inl full ↦ rw full (rehash-HasRoom full)
      | inr free ↦ rw free (record {
        means = current;
        roomy = v.roomy;
        counted = omega (arith, v.counted);
        limit = v.limit;
        sparse = ground arith;
      })
    ]

    make_room-size : (make_room map).size ≡ suc map.size
    unfolding make_room hmap_rehash
    make_room-size = ground arith

  -- A fresh map is valid and has no value at any key.
  pub hmap_new-IsValid :
      IsValid (hmap_new {K = K} {V = V})
      × ((j : Option K) → hmap_get (hmap_new {K = K} {V = V}) j ≡ none)
  unfolding hmap_new hmap_get
  hmap_new-IsValid =
      let m = empty-Means {K = K} {V = V} 11 in
      (
        record {
          roomy = omega arith;
          placed = m.placed;
          distinct = m.distinct;
          counted = sym (total-replicate (Entry K V) 11);
          limit = refl;
          sparse = omega arith;
        },
        m.reads,
      )

  -- Clearing a valid map leaves a valid map with no value at any key.
  pub hmap_clear-IsValid :
      (map : HMap K V)
      → IsValid map
      → IsValid (hmap_clear map) × ((j : Option K) → hmap_get (hmap_clear map) j ≡ none)
  unfolding hmap_clear hmap_get
  hmap_clear-IsValid map v =
      let m = empty-Means {K = K} {V = V} (length map.buckets) in
      (
        record {
          roomy = rw m.width v.roomy;
          placed = m.placed;
          distinct = m.distinct;
          counted = sym (total-replicate (Entry K V) (length map.buckets));
          limit = rw m.width v.limit;
          sparse = omega arith;
        },
        m.reads,
      )

  module _ (map : HMap K V) (k : Option K) where
    abbrev here : Chain K V
    here = home_chain map.buckets k

    abbrev at_home : Chain K V → List (Chain K V)
    at_home c = set map.buckets (hmap_hash (length map.buckets) k) c

    hmap_put_found :
        (v old : V)
        → chain_get k here ≡ some old
        → hmap_put map k v ≡ (some old, record map { buckets = at_home (chain_assign k v here) })
    unfolding hmap_put
    hmap_put_found v old e = rw (e, hmap_put)

    hmap_put_absent :
        (v : V) → chain_get k here ≡ none → hmap_put map k v ≡ (none, prepend (make_room map) k v)
    unfolding hmap_put
    hmap_put_absent v e = rw (e, hmap_put)

    hmap_remove_found :
        (old : V)
        → chain_get k here ≡ some old
        → hmap_remove map k
          ≡ (some old, record map { buckets = at_home (chain_unlink k here); size = map.size - 1 })
    unfolding hmap_remove
    hmap_remove_found old e = rw (e, hmap_remove)

    hmap_remove_absent : chain_get k here ≡ none → hmap_remove map k ≡ (none, map)
    unfolding hmap_remove
    hmap_remove_absent e = rw (e, hmap_remove)

  -- `hmap_put` returns the value that the key had, and afterwards the key has the new value, every
  -- other key what it had; the map stays valid, grown or not, and counts one entry more exactly when
  -- the key is new.
  pub hmap_put-Writes :
      (map : HMap K V) (k : Option K) (v : V)
      → IsValid map
      → ((hmap_put map k v).0 ≡ hmap_get map k)
        × Writes map (hmap_put map k v).1 k (some v)
        × ((hmap_put map k v).1.size + held (hmap_get map k) ≡ map.size + 1)
  hmap_put-Writes map k v valid = elim (Option-cases (hmap_get map k)) [
    | inl new ↦
        let e : chain_get k (home_chain map.buckets k) ≡ none = unfold hmap_get in new in
        let (ok, reads) =
          prepend-IsValid (make_room map) k v (view map.buckets) (make_room-HasRoom map valid k)
            (unfold hmap_get in new) in
        rw (hmap_put_absent map k v e, new)
          (
            refl,
            record { valid = ok; reads = unfold hmap_get in reads },
            unfold prepend in omega (arith, make_room-size map valid k),
          )
    | inr (old, found) ↦
        let c = home_chain map.buckets k in
        let e : chain_get k c ≡ some old = unfold hmap_get in found in
        rw (hmap_put_found map k v old e, found)
          (
            refl,
            write-Writes map valid k (some v) (chain_assign k v c) map.size
                (assign-Distinct k v old c e (valid.distinct _))
                (λ j. chain_get-assign k j v old c e) (omega (arith, length-assign k v c))
                (omega arith),
            omega arith,
          )
  ]

  -- `hmap_remove` returns the value that the key had, and afterwards the key has none, every other
  -- key what it had; the map stays valid and counts one entry less exactly when the key was there.
  pub hmap_remove-Writes :
      (map : HMap K V) (k : Option K)
      → IsValid map
      → ((hmap_remove map k).0 ≡ hmap_get map k)
        × Writes map (hmap_remove map k).1 k none
        × ((hmap_remove map k).1.size + held (hmap_get map k) ≡ map.size)
  hmap_remove-Writes map k valid = elim (Option-cases (hmap_get map k)) [
    | inl new ↦
        let e : chain_get k (home_chain map.buckets k) ≡ none = unfold hmap_get in new in
        rw (hmap_remove_absent map k e, new)
          (refl, record { valid = valid; reads = λ j. ground (arith, same_iff j k) }, omega arith)
    | inr (old, found) ↦
        let c = home_chain map.buckets k in
        let e : chain_get k c ≡ some old = unfold hmap_get in found in
        let shorter = length-unlink k old c e in
        let nonempty =
          total-set map.buckets (hmap_hash (length map.buckets) k) []
            (hash-lt (length map.buckets) k valid.roomy) in
        rw (hmap_remove_found map k old e, found)
          (
            refl,
            write-Writes map valid k none (chain_unlink k c) (map.size - 1)
                (unlink-Distinct k c (valid.distinct _))
                (λ j. chain_get-unlink k j c (valid.distinct _)) (omega (arith, valid.counted))
                (omega arith),
            omega (arith, valid.counted),
          )
  ]
