-- ===== src/Plan/Resolve/Follow.antt =====
-- `follow`: what it changes, and that it ends with a chain of links or with none.
use renameutils.Common.{
  ℕ, zero, suc, ◌+◌, true, false, List, [], ◌∷◌, Option, none, some, ◌≡◌, ◌≢◌, ◌⊎◌, inl, inr, refl,
  sym, ap, ◌∙◌, arith, ==_iff, Bytes, length, ◌≤◌, ◌==◌, Bool-cases, Option-cases,
}
use renameutils.Dictionary.{Dictionary}
use renameutils.Plan.{Planning, is_unchecked}
use renameutils.Plan.Narrow.{In, IsUnchecked}
use renameutils.Plan.Invariant.{NoDup}
use renameutils.Plan.Resolve.{write_next, follow}
use renameutils.Plan.Resolve.Chain.{NoDup-length, Chain, Chain-off}

-- Nothing changes but the `next_spec` of unchecked specs.
pub record NextOnly (p p' : Planning) : Type 0 where
  pub old_same : (j : ℕ) → (p'.specs j).old_name ≡ (p.specs j).old_name
  pub new_same : (j : ℕ) → (p'.specs j).new_name ≡ (p.specs j).new_name
  pub prev_same : (j : ℕ) → (p'.specs j).prev_spec ≡ (p.specs j).prev_spec
  pub status_same : (j : ℕ) → (p'.specs j).status ≡ (p.specs j).status
  pub next_same :
      (j : ℕ)
      → is_unchecked (p.specs j).status ≡ false
      → (p'.specs j).next_spec ≡ (p.specs j).next_spec
  pub ok_same : p'.ok ≡ p.ok

pub NextOnly-refl : (p : Planning) → NextOnly p p
NextOnly-refl p = record {
  old_same = λ j. refl;
  new_same = λ j. refl;
  prev_same = λ j. refl;
  status_same = λ j. refl;
  next_same = λ j h. refl;
  ok_same = refl;
}

NextOnly-trans : {p q r : Planning} → NextOnly p q → NextOnly q r → NextOnly p r
NextOnly-trans a b = record {
  old_same = λ j. b.old_same j ∙ a.old_same j;
  new_same = λ j. b.new_same j ∙ a.new_same j;
  prev_same = λ j. b.prev_same j ∙ a.prev_same j;
  status_same = λ j. b.status_same j ∙ a.status_same j;
  next_same = λ j h. b.next_same j (ap is_unchecked (a.status_same j) ∙ h) ∙ a.next_same j h;
  ok_same = b.ok_same ∙ a.ok_same;
}

NextOnly-write :
    {p q : Planning} (i : ℕ) (o : Option ℕ)
    → NextOnly p q
    → IsUnchecked p i
    → NextOnly p (write_next q i o)
NextOnly-write {p} {q} i o a u = NextOnly-trans a (record {
  old_same = λ j. ground (arith, ==_iff j i);
  new_same = λ j. ground (arith, ==_iff j i);
  prev_same = λ j. ground (arith, ==_iff j i);
  status_same = λ j. ground (arith, ==_iff j i);
  next_same = λ j h. let e = a.status_same i in ground (arith, ==_iff j i, e);
  ok_same = refl;
})

write_next_other :
    (p : Planning) (i : ℕ) (o : Option ℕ) (j : ℕ)
    → j ≢ i
    → ((write_next p i o).specs j).next_spec ≡ (p.specs j).next_spec
write_next_other p i o j n = ground (arith, ==_iff j i)

write_next_self : (p : Planning) (i : ℕ) (o : Option ℕ) → ((write_next p i o).specs i).next_spec ≡ o
write_next_self p i o = ground (arith, ==_iff i i)

-- From `s2`, the links `next_spec` lead over the list, and no further.
abbrev pub Links : Planning → ℕ → List ℕ → Type 0
Links p s2 [] = (p.specs s2).next_spec ≡ none
Links p s2 (k ∷ ks) = ((p.specs s2).next_spec ≡ some k) × Links p k ks

-- What the loops before have made sure of.
pub record Sources (dict : Dictionary) (renames : List ℕ) (p : Planning) (map_old : dict.Map)
    : Type 0 where
  pub source :
      (n : Bytes) (k : ℕ) → dict.get map_old n ≡ some k → In k renames × ((p.specs k).old_name ≡ n)
  pub one_new :
      (j k : ℕ)
      → In j renames
      → In k renames
      → IsUnchecked p j
      → IsUnchecked p k
      → (p.specs j).new_name ≡ (p.specs k).new_name
      → j ≡ k

module _ (dict : Dictionary) (renames : List ℕ) (p₀ : Planning) (map_old : dict.Map)
    (sources : Sources dict renames p₀ map_old) (s1 : ℕ) where
  open dict use {get}

  abbrev Ring : ℕ → List ℕ → Type 0
  Ring = Chain (get map_old) (λ j. (p₀.specs j).new_name) (IsUnchecked p₀) s1

  -- What has been followed so far, with the latest first: each but the first has been looked up.
  record Visited (s2 : ℕ) (vs : List ℕ) : Type 0 where
    once : NoDup (s2 ∷ vs)
    known : (j : ℕ) → In j (s2 ∷ vs) → In j renames × IsUnchecked p₀ j
    found :
        (j : ℕ)
        → In j (s2 ∷ vs)
        → (j ≡ s1) ⊎ ((u : ℕ) × In u vs × (get map_old (p₀.specs u).new_name ≡ some j))

  Visited-more :
      (s2 k : ℕ) (vs : List ℕ)
      → Visited s2 vs
      → get map_old (p₀.specs s2).new_name ≡ some k
      → IsUnchecked p₀ k
      → k ≢ s1
      → Visited k (s2 ∷ vs)
  Visited-more s2 k vs v e open' n = record {
    once = (
      λ h. elim (v.found k h) [
        | inl at ↦ n at
        | inr (u, hu, e') ↦
            let a = (sources.source (p₀.specs s2).new_name k e).1 in
            let b = (sources.source (p₀.specs u).new_name k e').1 in
            let (ru, ou) = v.known u (inr hu) in
            let (rs, os) = v.known s2 (inl refl) in
            v.once.0 (rw (sources.one_new u s2 ru rs ou os (sym b ∙ a)) at hu)
      ],
      v.once,
    );
    known = λ j h. elim h [
      | inl at ↦ rw at ((sources.source (p₀.specs s2).new_name k e).0, open')
      | inr g ↦ v.known j g
    ];
    found = λ j h. elim h [
      | inl at ↦ inr (s2, inl refl, rw at e)
      | inr g ↦ elim (v.found j g) [ inl at ↦ inl at | inr (u, hu, e') ↦ inr (u, inr hu, e') ]
    ];
  }

  abbrev Found : ℕ → Planning → Planning → Type 0
  Found s2 p p' =
      (ks : List ℕ) × Ring s2 ks
      × Links p' s2 ks
      × ((j : ℕ) → (In j (s2 ∷ ks) → ⊥) → (p'.specs j).next_spec ≡ (p.specs j).next_spec)

  abbrev Result : ℕ → Planning → Planning → Type 0
  Result s2 p p' = NextOnly p₀ p' × (((p'.specs s1).next_spec ≡ none) ⊎ Found s2 p p')

  Result-more :
      (s2 k : ℕ) (p p' : Planning)
      → get map_old (p₀.specs s2).new_name ≡ some k
      → IsUnchecked p₀ k
      → k ≢ s1
      → Result k (write_next p s2 (some k)) p'
      → Result s2 p p'
  Result-more s2 k p p' e open' n (same, inl dead) = (same, inl dead)
  Result-more s2 k p p' e open' n (same, inr (ks, c, l, frame)) =
      let off =
        Chain-off (get map_old) (λ j. (p₀.specs j).new_name) (IsUnchecked p₀) s1 s2 (k ∷ ks)
          (e, open', n, c) in
      (
        same,
        inr (
          k ∷ ks,
          (e, open', n, c),
          (frame s2 off ∙ write_next_self p s2 (some k), l),
          λ j h. frame j (λ g. h (inr g)) ∙ write_next_other p s2 (some k) j (λ at. h (inl at)),
        ),
      )

  follow_ends :
      (fuel s2 : ℕ) (p : Planning)
      → (get map_old (p.specs s2).new_name ≡ none)
        ⊎ ((k : ℕ) × (get map_old (p.specs s2).new_name ≡ some k)
            × (is_unchecked (p.specs k).status ≡ false))
      → follow dict (suc fuel) map_old s1 s2 s2 p ≡ write_next p s1 none
  unfolding follow
  follow_ends fuel s2 p (inl e) = rw (follow, e) refl
  follow_ends fuel s2 p (inr (k, e, closed)) = rw (follow, e, closed) refl

  follow_closes :
      (fuel s2 : ℕ) (p : Planning)
      → get map_old (p.specs s2).new_name ≡ some s1
      → IsUnchecked p s1
      → follow dict (suc fuel) map_old s1 s2 s2 p ≡ write_next p s2 none
  unfolding follow
  follow_closes fuel s2 p e open' =
      let at : (s1 == s1) ≡ true = ground (arith, ==_iff s1 s1) in rw (follow, e, open', at) refl

  follow_goes :
      (fuel s2 k : ℕ) (p : Planning)
      → get map_old (p.specs s2).new_name ≡ some k
      → IsUnchecked p k
      → k ≢ s1
      → follow dict (suc fuel) map_old s1 s2 s2 p
        ≡ follow dict fuel map_old s1 k k (write_next p s2 (some k))
  unfolding follow
  follow_goes fuel s2 k p e open' n =
      let off : (k == s1) ≡ false = ground (arith, ==_iff k s1) in rw (follow, e, open', off) refl

  module _ (open_s1 : IsUnchecked p₀ s1) where
    start : In s1 renames → Visited s1 []
    start h = record {
      once = ((λ g. g), tt);
      known = λ j g. elim g [ inl at ↦ rw at (h, open_s1) | inr none' ↦ absurd none' ];
      found = λ j g. elim g [ inl at ↦ inl at | inr none' ↦ absurd none' ];
    }

    follow_lem :
        (fuel s2 : ℕ) (vs : List ℕ) (p : Planning)
        → NextOnly p₀ p
        → Visited s2 vs
        → length renames ≤ length vs + fuel
        → Result s2 p (follow dict fuel map_old s1 s2 s2 p)
    unfolding follow
    follow_lem zero s2 vs p same v enough =
        let few = NoDup-length (s2 ∷ vs) renames v.once (λ j h. (v.known j h).0) in
        absurd (ground (arith, few))
    follow_lem (suc fuel) s2 vs p same v enough =
        let dead : Result s2 p (write_next p s1 none) =
          (NextOnly-write s1 none same open_s1, inl (write_next_self p s1 none)) in
        let open_s2 = (v.known s2 (inl refl)).1 in
        elim (Option-cases (get map_old (p.specs s2).new_name)) [
          | inl e ↦ rw (follow_ends fuel s2 p (inl e)) dead
          | inr (k, e) ↦
              let e' : get map_old (p₀.specs s2).new_name ≡ some k = rw (same.new_same s2) at e in
              elim (Bool-cases (is_unchecked (p.specs k).status)) [
                | inr closed ↦ rw (follow_ends fuel s2 p (inr (k, e, closed))) dead
                | inl open' ↦
                    let open_k : IsUnchecked p₀ k = rw (same.status_same k) at open' in
                    elim (Bool-cases (k == s1)) [
                      | inl at ↦
                          let back : k ≡ s1 = ground (arith, ==_iff k s1) in
                          rw (follow_closes fuel s2 p (rw back at e) (rw back at open')) (
                            NextOnly-write s2 none same open_s2,
                            inr (
                              [],
                              rw back at e',
                              write_next_self p s2 none,
                              λ j h. write_next_other p s2 none j (λ g. h (inl g)),
                            ),
                          )
                      | inr off ↦
                          let n : k ≢ s1 = ground (arith, ==_iff k s1) in
                          rw (follow_goes fuel s2 k p e open' n) (
                            Result-more s2 k p _ e' open_k n (
                              follow_lem fuel k (s2 ∷ vs) (write_next p s2 (some k))
                                (NextOnly-write s2 (some k) same open_s2)
                                (Visited-more s2 k vs v e' open_k n) (ground arith)))
                    ]
              ]
        ]

    -- With a step for each spec of the list, the search ends by itself: with no link at `s1`, or with
    -- the links of a circular set.
    pub follow-Links :
        In s1 renames
        → (((follow dict (length renames) map_old s1 s1 s1 p₀).specs s1).next_spec ≡ none)
          ⊎ ((ks : List ℕ) × Ring s1 ks
              × Links (follow dict (length renames) map_old s1 s1 s1 p₀) s1 ks)
    follow-Links h =
        elim (follow_lem (length renames) s1 [] p₀ (NextOnly-refl p₀) (start h) (ground arith)).1 [
          | inl dead ↦ inl dead
          | inr (ks, c, l, frame) ↦ inr (ks, c, l)
        ]

    pub follow-NextOnly :
        In s1 renames → NextOnly p₀ (follow dict (length renames) map_old s1 s1 s1 p₀)
    follow-NextOnly h =
        (follow_lem (length renames) s1 [] p₀ (NextOnly-refl p₀) (start h) (ground arith)).0
