-- ===== src/HMap/Rehash.antt =====
-- `hmap_rehash` moves every entry to a larger array and changes no lookup.
use mathlib.Core.Option.{or_else}
use renameutils.Common.{
  ℕ, zero, suc, ◌+◌, ◌*◌, ==_iff, ◌<◌, List, [], ◌∷◌, ◌++◌, Option, none, some, ◌≡◌, ◌≢◌, refl, sym,
  ◌∙◌, arith, length, get_or, set, replicate, length-append, length-replicate, get_or-replicate,
  length-set,
}
use renameutils.HMap.{
  Key, Entry, Chain, HMap, hmap_hash, chain_get, home_chain, move_chain, move_all, hmap_rehash,
}
use renameutils.HMap.Chain.{
  Distinct, same_iff, same_refl, chain_get-append, append-Distinct, Distinct-append,
}
use renameutils.HMap.Buckets.{
  total, total-set, total-replicate, hash-lt, IsPlaced, IsDistinct, view, update, Means, set-Means,
}

module _ {K V : Type 0} ⦃key : Key K⦄ where
  -- What is found in `c`, and else by `f`.
  abbrev pub overlay : (Option K → Option V) → Chain K V → Option K → Option V
  overlay f c j = or_else (chain_get j c) (f j)

  pub Means-congr :
      {n : ℕ} {f g : Option K → Option V} {bs : List (Chain K V)}
      → ((j : Option K) → f j ≡ g j)
      → Means n f bs
      → Means n g bs
  Means-congr e m = record {
    width = m.width;
    placed = m.placed;
    distinct = m.distinct;
    reads = λ j. m.reads j ∙ e j;
  }

  pub empty-Means : (n : ℕ) → Means {K = K} {V = V} n (λ j. none) (replicate n [])
  unfolding chain_get
  empty-Means n = record {
    width = length-replicate n [];
    placed = λ j i h. rw get_or-replicate;
    distinct = λ i. rw get_or-replicate tt;
    reads = λ j. rw get_or-replicate;
  }

  append-Means :
      (f : Option K → Option V) (bs : List (Chain K V))
      → 0 < length bs
      → (k : Option K) (v : V) → Means (length bs) f bs
      → f k ≡ none
      → Means
          (length bs)
          (update f k (some v))
          (set bs (hmap_hash (length bs) k) (home_chain bs k ++ (k, v) ∷ []))
  unfolding chain_get or_else
  append-Means f bs pos k v m new =
      let c = home_chain bs k in
      let absent : chain_get k c ≡ none = m.reads k ∙ new in
      set-Means bs pos k _ f (some v) m (append-Distinct c k v (m.distinct _) absent)
        (λ j. ground (arith, chain_get-append j c ((k, v) ∷ []), same_iff j k))

  pub Means-width :
      {n n' : ℕ} {f : Option K → Option V} {bs : List (Chain K V)}
      → n ≡ n'
      → Means n f bs
      → Means n' f bs
  Means-width e m = record {
    width = m.width ∙ e;
    placed = m.placed;
    distinct = m.distinct;
    reads = m.reads;
  }

  move_chain-Means :
      (c : Chain K V) (f : Option K → Option V) (bs : List (Chain K V))
      → 0 < length bs
      → Means (length bs) f bs
      → Distinct c
      → ((j : Option K) → chain_get j c ≢ none → f j ≡ none)
      → Means (length bs) (overlay f c) (move_chain c bs)
  unfolding move_chain chain_get or_else
  move_chain-Means [] f bs pos m h apart = m
  move_chain-Means ((k, v) ∷ c) f bs pos m (new, h) apart =
      let new' : f k ≡ none = apart k (ground (arith, same_refl k)) in
      let one = append-Means f bs pos k v m new' in
      let bs' = set bs (hmap_hash (length bs) k) (home_chain bs k ++ (k, v) ∷ []) in
      let rest =
        move_chain-Means c (update f k (some v)) bs' (rw one.width pos)
          (Means-width (sym one.width) one) h (λ j n. ground (arith, apart j, same_iff j k)) in
      Means-width one.width (Means-congr (λ j. ground (arith, same_iff j k)) rest)

  -- The entries of all the buckets, in order.
  pub entries : List (Chain K V) → Chain K V
  entries [] = []
  entries (c ∷ bs) = c ++ entries bs

  move_chain-append :
      (c d : Chain K V) (bs : List (Chain K V))
      → move_chain (c ++ d) bs ≡ move_chain d (move_chain c bs)
  unfolding move_chain
  move_chain-append [] d bs = refl
  move_chain-append (e ∷ c) d bs = move_chain-append c d _

  move_all-entries :
      (bs fresh : List (Chain K V)) → move_all bs fresh ≡ move_chain (entries bs) fresh
  unfolding move_all entries
  move_all-entries [] fresh = unfold move_chain in refl
  move_all-entries (c ∷ bs) fresh =
      move_all-entries bs (move_chain c fresh) ∙ sym (move_chain-append c (entries bs) fresh)

  entries_nowhere :
      (j : Option K) (bs : List (Chain K V))
      → ((i : ℕ) → chain_get j (get_or bs i []) ≡ none)
      → chain_get j (entries bs) ≡ none
  unfolding entries chain_get or_else
  entries_nowhere j [] h = refl
  entries_nowhere j (c ∷ bs) h = rw (chain_get-append, h 0) (entries_nowhere j bs (λ i. h (suc i)))

  entries_only :
      (j : Option K) (bs : List (Chain K V)) (home : ℕ)
      → ((i : ℕ) → home ≢ i → chain_get j (get_or bs i []) ≡ none)
      → chain_get j (entries bs) ≡ chain_get j (get_or bs home [])
  unfolding entries chain_get or_else
  entries_only j [] home h = refl
  entries_only j (c ∷ bs) zero h =
      rw (chain_get-append, entries_nowhere j bs (λ i. h (suc i) (omega arith))) (ground arith)
  entries_only j (c ∷ bs) (suc home) h =
      rw (chain_get-append, h 0 (omega arith))
        (entries_only j bs home (λ i n. h (suc i) (omega arith)))

  -- No key stands in two buckets.
  abbrev IsApart : List (Chain K V) → Type 0
  IsApart bs =
      (j : Option K) (i k : ℕ)
      → i ≢ k
      → chain_get j (get_or bs i []) ≢ none
      → chain_get j (get_or bs k []) ≡ none

  placed-IsApart : (bs : List (Chain K V)) → IsPlaced bs → IsApart bs
  placed-IsApart bs placed j i k n found =
      ground (arith, placed j i, placed j k, ==_iff (hmap_hash (length bs) j) i)

  entries-Distinct : (bs : List (Chain K V)) → IsApart bs → IsDistinct bs → Distinct (entries bs)
  unfolding entries
  entries-Distinct [] apart distinct = tt
  entries-Distinct (c ∷ bs) apart distinct =
      Distinct-append c (entries bs) (distinct 0)
        (entries-Distinct bs (λ j i k n. apart j (suc i) (suc k) (omega arith))
          (λ i. distinct (suc i)))
        (λ j found. entries_nowhere j bs (λ i. apart j 0 (suc i) (omega arith) found))

  length-entries : (bs : List (Chain K V)) → length (entries bs) ≡ total bs
  unfolding entries total
  length-entries [] = refl
  length-entries (c ∷ bs) = omega (arith, length-append c (entries bs), length-entries bs)

  total-move_chain :
      (c : Chain K V) (bs : List (Chain K V))
      → 0 < length bs
      → total (move_chain c bs) ≡ total bs + length c
  unfolding move_chain
  total-move_chain [] bs pos = omega arith
  total-move_chain (e ∷ c) bs pos =
      let old = home_chain bs e.0 in
      let i = hmap_hash (length bs) e.0 in
      omega (
        arith,
        total-move_chain c (set bs i (old ++ e ∷ [])) (rw length-set pos),
        total-set bs i (old ++ e ∷ []) (hash-lt (length bs) e.0 pos),
        length-append old (e ∷ []),
      )

  -- The larger array means the same function, with as many entries.
  pub rehash-Means :
      (map : HMap K V)
      → 0 < length map.buckets
      → IsPlaced map.buckets
      → IsDistinct map.buckets
      → Means (length map.buckets * 2 + 1) (view map.buckets) (hmap_rehash map).buckets
        × (total (hmap_rehash map).buckets ≡ total map.buckets)
  unfolding hmap_rehash or_else
  rehash-Means map pos placed distinct =
      let n = length map.buckets * 2 + 1 in
      let fresh : List (Chain K V) = replicate n [] in
      let start : Means n (λ j. none) fresh = empty-Means n in
      let room : 0 < length fresh = rw length-replicate (omega arith) in
      let all = entries map.buckets in
      let unique = entries-Distinct map.buckets (placed-IsApart map.buckets placed) distinct in
      let moved =
        move_chain-Means all (λ j. none) fresh room (Means-width (sym start.width) start) unique
          (λ j h. refl) in
      (
        rw move_all-entries (
            Means-width start.width (
              Means-congr
                (λ j.
                  rw (entries_only j map.buckets (hmap_hash (length map.buckets) j) (placed j))
                    (ground arith))
                moved)),
        rw move_all-entries (
            omega (
              arith,
              total-move_chain all fresh room,
              total-replicate (Entry K V) n,
              length-entries map.buckets,
            )),
      )
