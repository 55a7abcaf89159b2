-- ===== src/Plan/Duplicates.antt =====
-- `duplicate_scan` leaves no two unchecked specs with one new name.
use mathlib.Core.Bool.{true≢false}
use renameutils.Common.{
  ℕ, true, false, List, Option, none, some, ◌≡◌, ◌⊎◌, inl, inr, refl, sym, ap, ◌∙◌, arith, ==_iff,
  str_eq, str_eq_iff, Bool-cases, Option-cases, same_some,
}
use renameutils.Dictionary.{Dictionary}
use renameutils.Plan.{
  duplicate, is_unchecked, Planning, refuse, for_each, mark_duplicates, duplicate_step,
  duplicate_scan,
}
use renameutils.Plan.Narrow.{
  In, IsUnchecked, Narrows, Narrows-refl, Narrows-trans, set_status-Narrows, Narrows-specs,
  for_each-each, for_each-keep,
}

refuse-Narrows : (p : Planning) (i : ℕ) → Narrows p (refuse p i duplicate)
refuse-Narrows p i = Narrows-specs (set_status-Narrows p i duplicate refl) refl

refuse_off : (p : Planning) (i : ℕ) → is_unchecked ((refuse p i duplicate).specs i).status ≡ false
refuse_off p i = ground (arith, ==_iff i i)

module _ (dict : Dictionary) where
  open dict use {Map, empty, get, put}

  pub mark-Narrows : (i : ℕ) (o : Option ℕ) (p : Planning) → Narrows p (mark_duplicates dict i o p)
  mark-Narrows i none p = Narrows-refl p
  mark-Narrows i (some k) p = elim (Bool-cases (is_unchecked (p.specs k).status)) [
    | inl yes' ↦
        rw yes' (Narrows-trans (refuse-Narrows p k) (refuse-Narrows (refuse p k duplicate) i))
    | inr no' ↦ rw no' (refuse-Narrows p i)
  ]

  -- The spec that had the name is not unchecked afterwards, and neither is the new one.
  mark_off :
      (i k : ℕ) (p : Planning)
      → (is_unchecked ((mark_duplicates dict i (some k) p).specs k).status ≡ false)
        × (is_unchecked ((mark_duplicates dict i (some k) p).specs i).status ≡ false)
  mark_off i k p = (ground (arith, ==_iff k i, ==_iff k k), ground (arith, ==_iff i i))

  pub duplicate_step-Narrows :
      (i : ℕ) (s : Map × Planning) → Narrows s.1 (duplicate_step dict i s).1
  unfolding duplicate_step
  duplicate_step-Narrows i (m, p) = elim (Bool-cases (is_unchecked (p.specs i).status)) [
    | inl yes' ↦ rw yes' (mark-Narrows i (put m (p.specs i).new_name i).0 p)
    | inr no' ↦ rw no' (Narrows-refl p)
  ]

  pub duplicate_scan-Narrows : (is : List ℕ) (p : Planning) → Narrows p (duplicate_scan dict is p)
  unfolding duplicate_scan
  duplicate_scan-Narrows is p =
      for_each-keep (λ s. Narrows p s.1) (duplicate_step dict)
        (λ i s n. Narrows-trans n (duplicate_step-Narrows i s)) is (empty, p) (Narrows-refl p)

  -- The map leads from the new name of an unchecked spec to that spec.
  abbrev Registered : ℕ → Map × Planning → Type 0
  Registered j s = IsUnchecked s.1 j → get s.0 (s.1.specs j).new_name ≡ some j

  pub step_on :
      (i : ℕ) (m : Map) (p : Planning)
      → is_unchecked (p.specs i).status ≡ true
      → duplicate_step dict i (m, p)
        ≡ ((put m (p.specs i).new_name i).1, mark_duplicates dict i (get m (p.specs i).new_name) p)
  unfolding duplicate_step
  step_on i m p h = rw (h, dict.put_result m (p.specs i).new_name i)

  pub step_off :
      (i : ℕ) (m : Map) (p : Planning)
      → is_unchecked (p.specs i).status ≡ false
      → duplicate_step dict i (m, p) ≡ (m, p)
  unfolding duplicate_step
  step_off i m p h = rw h

  Registered-some :
      (i j k : ℕ) (m : Map) (p : Planning)
      → get m (p.specs i).new_name ≡ some k
      → (j ≡ i) ⊎ Registered j (m, p)
      → Registered j ((put m (p.specs i).new_name i).1, mark_duplicates dict i (some k) p)
  Registered-some i j k m p found (inl e) u =
      absurd (true≢false (sym u ∙ ap (λ t. is_unchecked (marked.specs t).status) e ∙ off.1))
    where
      marked : Planning
      marked = mark_duplicates dict i (some k) p

      off :
          (is_unchecked (marked.specs k).status ≡ false)
          × (is_unchecked (marked.specs i).status ≡ false)
      off = mark_off i k p
  Registered-some i j k m p found (inr r) u =
      elim (Bool-cases (str_eq (p.specs j).new_name (p.specs i).new_name)) [
        | inl same ↦
            let name = (str_eq_iff (p.specs j).new_name (p.specs i).new_name).0 same in
            let both : some j ≡ some k = sym known ∙ ap (get m) name ∙ found in
            absurd (
              true≢false (
                sym u
                ∙ ap (λ t. is_unchecked (marked.specs t).status) (same_some both)
                ∙ (mark_off i k p).0))
        | inr other ↦
            rw (n.new_same j, dict.get-put m (p.specs i).new_name (p.specs j).new_name i, other)
              known
      ]
    where
      marked : Planning
      marked = mark_duplicates dict i (some k) p

      n : Narrows p marked
      n = mark-Narrows i (some k) p

      known : get m (p.specs j).new_name ≡ some j
      known = r (n.still j u)

  Registered-none :
      (i j : ℕ) (m : Map) (p : Planning)
      → get m (p.specs i).new_name ≡ none
      → (j ≡ i) ⊎ Registered j (m, p)
      → Registered j ((put m (p.specs i).new_name i).1, p)
  Registered-none i j m p found r u =
      rw (dict.get-put m (p.specs i).new_name (p.specs j).new_name i) (
        ground (
          arith,
          str_eq_iff (p.specs j).new_name (p.specs i).new_name,
          str_eq_iff (p.specs i).new_name (p.specs i).new_name,
        ))

  Registered-step :
      (i j : ℕ) (s : Map × Planning)
      → (j ≡ i) ⊎ Registered j s
      → Registered j (duplicate_step dict i s)
  Registered-step i j (m, p) r = elim (Bool-cases (is_unchecked (p.specs i).status)) [
    | inl on ↦ rw (step_on i m p on) (elim (Option-cases (get m (p.specs i).new_name)) [
      | inl new ↦ rw new (Registered-none i j m p new r)
      | inr (k, old) ↦ rw old (Registered-some i j k m p old r)
    ])
    | inr off ↦ rw (step_off i m p off) (ground arith)
  ]

  -- Two unchecked specs of the list with one new name are one spec, after `duplicate_scan`.
  pub duplicate_scan-distinct :
      (is : List ℕ) (p : Planning) (j k : ℕ)
      → In j is
      → In k is
      → IsUnchecked (duplicate_scan dict is p) j
      → IsUnchecked (duplicate_scan dict is p) k
      → ((duplicate_scan dict is p).specs j).new_name
        ≡ ((duplicate_scan dict is p).specs k).new_name
      → j ≡ k
  unfolding duplicate_scan
  duplicate_scan-distinct is p j k hj hk uj uk e =
      let all =
        for_each-each Registered (duplicate_step dict) (λ i s. Registered-step i i s (inl refl))
          (λ i j s r. Registered-step i j s (inr r)) is (empty, p) in
      let m = (for_each (duplicate_step dict) is (empty, p)).0 in
      same_some (sym (all j hj uj) ∙ ap (get m) e ∙ all k hk uk)
