-- ===== src/HMap/Buckets.antt =====
-- The bucket array: where entries stand, what it means as a map, and the write of one chain.
use renameutils.Common.{
  ℕ, zero, suc, ◌+◌, ◌<◌, List, [], ◌∷◌, Option, none, some, ◌≡◌, ◌≢◌, refl, arith, ◌==◌, ==_iff,
  if◌then◌else◌, length, get_or, set, replicate, length-set, get_or-set_self, get_or-set_ne,
  Bool-cases, inl, inr,
}
use renameutils.HMap.{Key, Chain, hmap_hash, same, chain_get, home_chain}
use renameutils.HMap.Chain.{Distinct, same_iff}

-- The number of entries.
unfoldable pub total {ℓ} : {A : Type ℓ} → List (List A) → ℕ
total [] = 0
total (c ∷ bs) = length c + total bs

pub total-set {ℓ} :
    {A : Type ℓ} (bs : List (List A)) (i : ℕ) (c : List A)
    → i < length bs
    → total (set bs i c) + length (get_or bs i []) ≡ total bs + length c
unfolding total
total-set [] i c h = absurd (omega arith)
total-set (d ∷ bs) zero c h = omega arith
total-set (d ∷ bs) (suc i) c h = omega (arith, total-set bs i c (omega arith))

pub total-replicate {ℓ} : (A : Type ℓ) (n : ℕ) → total (replicate {A = List A} n []) ≡ 0
unfolding total
total-replicate A zero = refl
total-replicate A (suc n) = omega (arith, total-replicate A n)

module _ {K : Type 0} ⦃key : Key K⦄ where
  pub hash-lt : (n : ℕ) (k : Option K) → 0 < n → hmap_hash n k < n
  unfolding hmap_hash
  hash-lt n none h = h
  hash-lt n (some k) h = omega arith

module _ {K V : Type 0} ⦃key : Key K⦄ where
  -- A key is found in its home bucket or nowhere.
  abbrev pub IsPlaced : List (Chain K V) → Type 0
  IsPlaced bs =
      (j : Option K) (i : ℕ) → hmap_hash (length bs) j ≢ i → chain_get j (get_or bs i []) ≡ none

  abbrev pub IsDistinct : List (Chain K V) → Type 0
  IsDistinct bs = (i : ℕ) → Distinct (get_or bs i [])

  -- The array as a function from keys to values.
  abbrev pub view : List (Chain K V) → Option K → Option V
  view bs j = chain_get j (home_chain bs j)

  -- The function changed at one key.
  abbrev pub update : (Option K → Option V) → Option K → Option V → Option K → Option V
  update f k r j = if same j k then r else f j

  -- `bs` has `n` buckets, every entry in place and no key twice, and means `f`.
  pub record Means (n : ℕ) (f : Option K → Option V) (bs : List (Chain K V)) : Type 0 where
    pub width : length bs ≡ n
    pub placed : IsPlaced bs
    pub distinct : IsDistinct bs
    pub reads : (j : Option K) → view bs j ≡ f j

  module _ (bs : List (Chain K V)) (pos : 0 < length bs) (k : Option K) (c : Chain K V) where
    abbrev home : ℕ
    home = hmap_hash (length bs) k

    get_or-home : (i : ℕ) → get_or (set bs home c) i [] ≡ (if home == i then c else get_or bs i [])
    get_or-home i = elim (Bool-cases (home == i)) [
      | inl here ↦
          let e : home ≡ i = (==_iff home i).0 here in
          rw (here, ← e) (get_or-set_self bs home c [] (hash-lt (length bs) k pos))
      | inr away ↦ rw away (get_or-set_ne bs home i c [] (λ e. ground (arith, ==_iff home i)))
    ]

    -- A chain that reads as the old one but at `k` may take its place.
    pub set-Means :
        (f : Option K → Option V) (r : Option V)
        → Means (length bs) f bs
        → Distinct c
        → ((j : Option K) → chain_get j c ≡ (if same j k then r else chain_get j (home_chain bs k)))
        → Means (length bs) (update f k r) (set bs home c)
    set-Means f r m d reads = record {
      width = length-set bs home c;
      placed = λ j i n. rw (get_or-home i) (
          let n' : hmap_hash (length bs) j ≢ i = rw length-set at n in
          ground (arith, reads j, m.placed j i n', same_iff j k, ==_iff home i));
      distinct = λ i. rw (get_or-home i) (ground (arith, m.distinct i));
      reads = λ j.
          rw (length-set, get_or-home (hmap_hash (length bs) j))
            (ground (
              arith,
              reads j,
              m.reads j,
              same_iff j k,
              m.placed j home,
              ==_iff home (hmap_hash (length bs) j),
            ));
    }
