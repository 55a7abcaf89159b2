-- ===== src/HMap/Chain.antt =====
-- One chain: which keys it holds, and what a write or an unlinking changes.
use mathlib.Core.Option.{or_else}
use renameutils.Common.{
  suc, true, [], ◌∷◌, ◌++◌, Option, none, some, ◌≡◌, ◌≢◌, ◌↔◌, refl, arith, if◌then◌else◌, length,
}
use renameutils.HMap.{Key, Chain, same, chain_get, chain_assign, chain_unlink}

module _ {K : Type 0} ⦃key : Key K⦄ where
  -- Null is equal to null alone, and other keys are equal by value.
  pub same_iff : (a b : Option K) → (same a b ≡ true) ↔ (a ≡ b)
  unfolding same
  same_iff none none = ground arith
  same_iff none (some b) = ground arith
  same_iff (some a) none = ground arith
  same_iff (some a) (some b) = ground (arith, key.equal_iff a b)

  pub same_refl : (a : Option K) → same a a ≡ true
  same_refl a = (same_iff a a).1 refl

module _ {K V : Type 0} ⦃key : Key K⦄ where
  -- No key stands twice.
  abbrev pub Distinct : Chain K V → Type 0
  Distinct [] = Unit
  Distinct (e ∷ c) = (chain_get e.0 c ≡ none) × Distinct c

  pub chain_get-append :
      (j : Option K) (c d : Chain K V)
      → chain_get j (c ++ d) ≡ or_else (chain_get j c) (chain_get j d)
  unfolding chain_get or_else
  chain_get-append j [] d = refl
  chain_get-append j (e ∷ c) d = ground (arith, chain_get-append j c d)

  pub append-Distinct :
      (c : Chain K V) (k : Option K) (v : V)
      → Distinct c
      → chain_get k c ≡ none
      → Distinct (c ++ (k, v) ∷ [])
  unfolding chain_get or_else
  append-Distinct [] k v h n = (refl, tt)
  append-Distinct (e ∷ c) k v (new, h) n = ground (
    arith,
    append-Distinct c k v h,
    chain_get-append e.0 c ((k, v) ∷ []),
    same_iff k e.0,
    same_iff e.0 k,
  )

  pub Distinct-append :
      (c d : Chain K V)
      → Distinct c
      → Distinct d
      → ((j : Option K) → chain_get j c ≢ none → chain_get j d ≡ none)
      → Distinct (c ++ d)
  unfolding chain_get or_else
  Distinct-append [] d hc hd apart = hd
  Distinct-append (e ∷ c) d (new, hc) hd apart = ground (
    arith,
    Distinct-append c d hc hd (λ j n. ground (arith, apart j)),
    chain_get-append e.0 c d,
    apart e.0,
    same_refl e.0,
  )

  pub chain_get-assign :
      (k j : Option K) (v old : V) (c : Chain K V)
      → chain_get k c ≡ some old
      → chain_get j (chain_assign k v c) ≡ (if same j k then some v else chain_get j c)
  unfolding chain_get chain_assign
  chain_get-assign k j v old [] h = absurd (ground arith)
  chain_get-assign k j v old (e ∷ c) h =
      ground (arith, chain_get-assign k j v old c, same_iff k e.0, same_iff j e.0, same_iff j k)

  pub chain_get-unlink :
      (k j : Option K) (c : Chain K V)
      → Distinct c
      → chain_get j (chain_unlink k c) ≡ (if same j k then none else chain_get j c)
  unfolding chain_get chain_unlink
  chain_get-unlink k j [] h = ground arith
  chain_get-unlink k j (e ∷ c) (new, h) =
      ground (arith, chain_get-unlink k j c h, same_iff k e.0, same_iff j e.0, same_iff j k)

  pub assign-Distinct :
      (k : Option K) (v old : V) (c : Chain K V)
      → chain_get k c ≡ some old
      → Distinct c
      → Distinct (chain_assign k v c)
  unfolding chain_get chain_assign
  assign-Distinct k v old [] f h = tt
  assign-Distinct k v old (e ∷ c) f (new, h) = ground (
    arith,
    assign-Distinct k v old c,
    chain_get-assign k e.0 v old c,
    same_iff k e.0,
    same_iff e.0 k,
  )

  pub unlink-Distinct : (k : Option K) (c : Chain K V) → Distinct c → Distinct (chain_unlink k c)
  unfolding chain_unlink
  unlink-Distinct k [] h = tt
  unlink-Distinct k (e ∷ c) (new, h) =
      ground (arith, unlink-Distinct k c h, chain_get-unlink k e.0 c h)

  pub length-assign :
      (k : Option K) (v : V) (c : Chain K V) → length (chain_assign k v c) ≡ length c
  unfolding chain_assign
  length-assign k v [] = refl
  length-assign k v (e ∷ c) = ground (arith, length-assign k v c)

  pub length-unlink :
      (k : Option K) (old : V) (c : Chain K V)
      → chain_get k c ≡ some old
      → suc (length (chain_unlink k c)) ≡ length c
  unfolding chain_unlink chain_get
  length-unlink k old [] h = absurd (ground arith)
  length-unlink k old (e ∷ c) h = ground (arith, length-unlink k old c)
