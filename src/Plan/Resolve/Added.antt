-- ===== src/Plan/Resolve/Added.antt =====
-- A plan to which `resolve_circular` has added a circular set is as sound as before.
use renameutils.Common.{
  ℕ, suc, ◌<◌, true, false, List, [], ◌∷◌, ◌++◌, some, ◌≡◌, ◌≢◌, ◌⊎◌, inl, inr, refl, sym, ap, ◌∙◌,
  arith, Bytes, append_assoc,
}
use renameutils.Dictionary.{Dictionary}
use renameutils.Plan.{Planning, circular, is_unchecked}
use renameutils.Plan.Narrow.{In, IsUnchecked}
use renameutils.Plan.Files.{FileSet, Safe}
use renameutils.Plan.Chained.{Chained, Chained-append, Chained-frame}
use renameutils.Plan.Linked.{In-snoc}
use renameutils.Plan.Invariant.{Ready}
use renameutils.Plan.Resolve.{Resolving}
use renameutils.Plan.Resolve.Chain.{Chain, Chain-Open}
use renameutils.Plan.Resolve.Follow.{Sources}
use renameutils.Plan.Resolve.Marks.{backwards}
use renameutils.Plan.Resolve.Circular.{Circular}
use renameutils.Plan.Resolve.Group.{Circle, group-Safe}
use renameutils.Plan.Resolve.Relinked.{Doubly, In-backwards}
use renameutils.Plan.Resolve.CircularLinks.{CircularLinks}
use renameutils.Plan.Resolve.Sound.{IsSound, Safe-same, Grows}

-- What the scans have seen to, of the specs that are still unchecked, and of the map of old names.
pub record Resolvable (dict : Dictionary) (files : FileSet) (renames : List ℕ) (map_old : dict.Map)
    (r : Resolving) : Type 0 where
  pub ready : Ready files renames r.planning
  pub differ :
      (j : ℕ)
      → In j renames
      → IsUnchecked r.planning j
      → (r.planning.specs j).old_name ≢ (r.planning.specs j).new_name
  pub small : (j : ℕ) → In j renames → j < r.fresh
  pub source :
      (n : Bytes) (k : ℕ)
      → dict.get map_old n ≡ some k
      → In k renames × ((r.planning.specs k).old_name ≡ n)

module _ (dict : Dictionary) (files : FileSet) (renames : List ℕ) (map_old : dict.Map) where
  open dict use {get}

  pub Resolvable-Grows :
      (r r' : Resolving)
      → Grows r r'
      → Resolvable dict files renames map_old r
      → Resolvable dict files renames map_old r'
  Resolvable-Grows r r' g v =
      let was =
        λ (j : ℕ) (h : In j renames) (u : IsUnchecked r'.planning j). g.still j (v.small j h) u in
      let old = λ (j : ℕ) (h : In j renames). g.old_same j (v.small j h) in
      let new = λ (j : ℕ) (h : In j renames). g.new_same j (v.small j h) in
      record {
        ready = record {
          old_there = λ j h u. ap files (old j h) ∙ v.ready.old_there j h (was j h u);
          old_distinct = λ j k h h' u u' e.
              v.ready.old_distinct j k h h' (was j h u) (was k h' u')
                (sym (old j h) ∙ e ∙ old k h');
          new_distinct = λ j k h h' u u' e.
              v.ready.new_distinct j k h h' (was j h u) (was k h' u')
                (sym (new j h) ∙ e ∙ new k h');
        };
        differ = λ j h u e. v.differ j h (was j h u) (sym (old j h) ∙ e ∙ new j h);
        small = λ j h. let s = v.small j h in let m = g.fresh_more in omega arith;
        source = λ n k e. let (h, at) = v.source n k e in (h, old k h ∙ at);
      }

  pub Resolvable-Sources :
      (r : Resolving)
      → Resolvable dict files renames map_old r
      → Sources dict renames r.planning map_old
  Resolvable-Sources r v = record { source = v.source; one_new = v.ready.new_distinct }

  -- The chain that was followed is a circle of names.
  Chain-Circle :
      (r : Resolving) (q : Planning) (tmp_name : Bytes) (tmp_free : files tmp_name ≡ false) (s1 : ℕ)
      (there : files (q.specs s1).old_name ≡ true)
      → Resolvable dict files renames map_old r
      → ((j : ℕ) → j < r.fresh → (q.specs j).old_name ≡ (r.planning.specs j).old_name)
      → ((j : ℕ) → j < r.fresh → (q.specs j).new_name ≡ (r.planning.specs j).new_name)
      → (s2 : ℕ) (ks : List ℕ) → s2 < r.fresh
      → Chain (get map_old) (λ j. (r.planning.specs j).new_name) (IsUnchecked r.planning) s1 s2 ks
      → Circle
          (λ j. (q.specs j).old_name)
          (λ j. (q.specs j).new_name)
          files
          tmp_name
          tmp_free
          s1
          there
          s2
          ks
  Chain-Circle r q tmp_name tmp_free s1 there v old new s2 [] less c =
      let (h, at) = v.source (r.planning.specs s2).new_name s1 c in
      new s2 less ∙ sym at ∙ sym (old s1 (v.small s1 h))
  Chain-Circle r q tmp_name tmp_free s1 there v old new s2 (k ∷ ks) less (e, open', n, c) =
      let (h, at) = v.source (r.planning.specs s2).new_name k e in
      let small = v.small k h in
      (
        new s2 less ∙ sym at ∙ sym (old k small),
        ap files (old k small) ∙ v.ready.old_there k h open',
        λ same. v.differ k h open' (sym (old k small) ∙ same ∙ new k small),
        Chain-Circle r q tmp_name tmp_free s1 there v old new k ks small c,
      )

-- Specs that are linked one after the other, and done in that order.
Doubly-Chained :
    (p : Planning) (before : List ℕ) (s2 : ℕ) (ks : List ℕ)
    → Doubly p s2 ks
    → ((j : ℕ) → In j ks → (p.specs j).status ≡ circular)
    → Chained p.specs (s2 ∷ before) ks
Doubly-Chained p before s2 [] d h = tt
Doubly-Chained p before s2 (k ∷ ks) (n, v, d) h = (
  rw (h k (inl refl)) refl,
  inr (s2, inl refl, v, n),
  Doubly-Chained p (s2 ∷ before) k ks d (λ j g. h j (inr g)),
)

In-append : (j : ℕ) (is js : List ℕ) → In j (is ++ js) → In j is ⊎ In j js
In-append j [] js h = inr h
In-append j (i ∷ is) js (inl e) = inl (inl e)
In-append j (i ∷ is) js (inr h) = elim (In-append j is js h) [ inl g ↦ inl (inr g) | inr g ↦ inr g ]

-- The specs of `ok` once the circular set is there.
abbrev Member : List ℕ → ℕ → List ℕ → ℕ → Type 0
Member oks copy ks j = ((j ≡ suc copy) ⊎ (j ≡ copy)) ⊎ (In j ks ⊎ In j oks)

Member-of :
    (oks : List ℕ) (copy : ℕ) (ks : List ℕ) (j : ℕ)
    → In j (suc copy ∷ backwards ks ++ copy ∷ oks)
    → Member oks copy ks j
Member-of oks copy ks j (inl e) = inl (inl e)
Member-of oks copy ks j (inr h) = elim (In-append j (backwards ks) (copy ∷ oks) h) [
  | inl g ↦ inr (inl (In-backwards j ks g))
  | inr g ↦ elim g [ inl e ↦ inl (inr e) | inr g' ↦ inr (inr g') ]
]

module _ (dict : Dictionary) (files : FileSet) (renames : List ℕ) (map_old : dict.Map)
    (r : Resolving) (v : Resolvable dict files renames map_old r) (s1 : ℕ) (h₁ : In s1 renames)
    (u₁ : IsUnchecked r.planning s1) where
  open dict use {get}

  abbrev pub Ring : ℕ → List ℕ → Type 0
  Ring = Chain (get map_old) (λ j. (r.planning.specs j).new_name) (IsUnchecked r.planning) s1

  pub Ring-known : (s2 : ℕ) (ks : List ℕ) (j : ℕ) → Ring s2 ks → In j ks → In j renames
  Ring-known s2 [] j c h = absurd h
  Ring-known s2 (k ∷ ks) j (e, open', n, c) (inl at) =
      rw at (v.source (r.planning.specs s2).new_name k e).0
  Ring-known s2 (k ∷ ks) j (e, open', n, c) (inr h) = Ring-known k ks j c h

  module _ (q : Planning) (ks : List ℕ) (tmp_name : Bytes) (tmp_free : files tmp_name ≡ false)
      (ring : Ring s1 ks) (c : Circular r.planning q r.fresh s1 ks tmp_name)
      (l : CircularLinks r.planning q r.fresh s1 ks) (s : IsSound files r) where
    abbrev added : Resolving
    added = record { planning = q; fresh = suc (suc r.fresh) }

    -- The specs that were in `ok` before are others.
    apart : (j : ℕ) → In j r.planning.ok → (j ≢ s1) × (In j ks → ⊥)
    apart j h =
        let closed = s.closed j h in
        (
          λ e. ground (arith, e, closed, u₁),
          λ g.
              let open' =
                Chain-Open (get map_old) (λ k. (r.planning.specs k).new_name)
                  (IsUnchecked r.planning) s1 s1 ks j ring g in
              ground (arith, open', closed),
        )

    added-closed : (j : ℕ) → In j q.ok → is_unchecked (q.specs j).status ≡ false
    added-closed j h = elim (Member-of r.planning.ok r.fresh ks j (rw c.listed at h)) [
      | inl m ↦ elim m [ inl e ↦ rw (e, c.status_extra) refl | inr e ↦ rw (e, c.status_copy) refl ]
      | inr m ↦ elim m [
        | inl g ↦ rw (c.status_ks j g) refl
        | inr g ↦
            let (n, off) = apart j g in
            ap is_unchecked (c.status_other j (s.small j g) n off) ∙ s.closed j g
      ]
    ]

    added_small : (j : ℕ) → In j q.ok → j < suc (suc r.fresh)
    added_small j h = elim (Member-of r.planning.ok r.fresh ks j (rw c.listed at h)) [
      | inl m ↦ elim m [ inl e ↦ omega arith | inr e ↦ omega arith ]
      | inr m ↦ elim m [
        | inl g ↦ let b = v.small j (Ring-known s1 ks j ring g) in omega arith
        | inr g ↦ let b = s.small j g in omega arith
      ]
    ]

    added-Chained : Chained q.specs [] q.ok
    added-Chained =
        let ok = r.planning.ok in
        let linked =
          Doubly-Chained q [] (suc r.fresh) (backwards ks ++ r.fresh ∷ []) l.linked (λ j h.
            elim (In-snoc j (backwards ks) r.fresh h) [
              | inl g ↦ c.status_ks j (In-backwards j ks g)
              | inr e ↦ rw e c.status_copy
            ]) in
        let before =
          Chained-frame r.planning.specs q.specs [] ok
            (λ j h. c.status_other j (s.small j h) (apart j h).0 (apart j h).1)
            (λ j h. l.prev_other j (s.small j h) (apart j h).0 (apart j h).1)
            (λ d h. elim h [
              | inl g ↦ l.next_other d (s.small d g) (apart d g).0 (apart d g).1
              | inr g ↦ absurd g
            ])
            s.chained in
        let both =
          Chained-append q.specs (suc r.fresh ∷ []) (backwards ks ++ r.fresh ∷ []) ok linked
            before in
        rw c.listed (
          rw c.status_extra refl,
          inl l.first,
          rw (append_assoc (backwards ks) (r.fresh ∷ []) ok) at both,
        )

    added-Safe : Safe (λ j. (q.specs j).old_name) (λ j. (q.specs j).new_name) files q.ok
    added-Safe =
        let ok = r.planning.ok in
        let less = v.small s1 h₁ in
        let there : files (q.specs s1).old_name ≡ true =
          ap files (c.old_same s1 less) ∙ v.ready.old_there s1 h₁ u₁ in
        let circle =
          Chain-Circle dict files renames map_old r q tmp_name tmp_free s1 there v c.old_same
            c.new_same s1 ks less ring in
        rw c.listed (
          group-Safe (λ j. (q.specs j).old_name) (λ j. (q.specs j).new_name) files tmp_name tmp_free
            s1 there r.fresh (suc r.fresh) ks ok circle (c.old_extra ∙ sym (c.old_same s1 less))
            c.new_extra c.old_copy (c.new_copy ∙ sym (c.new_same s1 less))
            (Safe-same (λ j. (r.planning.specs j).old_name) (λ j. (r.planning.specs j).new_name)
              (λ j. (q.specs j).old_name) (λ j. (q.specs j).new_name) files ok
              (λ j h. c.old_same j (s.small j h)) (λ j h. c.new_same j (s.small j h)) s.safe))

    pub added-IsSound : IsSound files added
    added-IsSound = record {
      safe = added-Safe;
      chained = added-Chained;
      closed = added-closed;
      small = added_small;
    }

    pub added-Grows : Grows r added
    added-Grows = record {
      fresh_more = omega arith;
      old_same = c.old_same;
      new_same = c.new_same;
      still = λ j h u.
          let n : j ≢ s1 = λ e. let a = c.status_s1 in ground (arith, e, a, u) in
          let off : In j ks → ⊥ = λ g. let a = c.status_ks j g in ground (arith, a, u) in
          sym (ap is_unchecked (c.status_other j h n off)) ∙ u;
    }

    pub added_closed_s1 : is_unchecked (q.specs s1).status ≡ false
    added_closed_s1 = rw c.status_s1 refl
