-- ===== src/Plan/Resolve/Relinked.antt =====
-- `relink`: a list is linked in both directions.
use renameutils.Common.{
  ℕ, true, false, List, [], ◌∷◌, ◌++◌, some, ◌≡◌, ◌≢◌, inl, inr, sym, ◌∙◌, arith, ==_iff, ◌==◌,
}
use renameutils.Plan.{Planning}
use renameutils.Plan.Narrow.{In}
use renameutils.Plan.Invariant.{NoDup}
use renameutils.Plan.Resolve.{write_next, write_prev, relink}
use renameutils.Plan.Linked.{In-snoc}
use renameutils.Plan.Resolve.Marks.{backwards}

-- From `s2`, the list is linked in both directions.
abbrev pub Doubly : Planning → ℕ → List ℕ → Type 0
Doubly p s2 [] = Unit
Doubly p s2 (k ∷ ks) =
    ((p.specs s2).next_spec ≡ some k) × ((p.specs k).prev_spec ≡ some s2) × Doubly p k ks

pub In-backwards : (j : ℕ) (ks : List ℕ) → In j (backwards ks) → In j ks
In-backwards j [] h = h
In-backwards j (k ∷ ks) h = elim (In-snoc j (backwards ks) k h) [
  | inl g ↦ inr (In-backwards j ks g)
  | inr e ↦ inl e
]

NoDup-snoc : (ks : List ℕ) (i : ℕ) → NoDup ks → (In i ks → ⊥) → NoDup (ks ++ i ∷ [])
NoDup-snoc [] i nd off = ((λ h. h), tt)
NoDup-snoc (k ∷ ks) i nd off = (
  λ h. elim (In-snoc k ks i h) [ inl g ↦ nd.0 g | inr e ↦ off (inl (sym e)) ],
  NoDup-snoc ks i nd.1 (λ h. off (inr h)),
)

pub NoDup-backwards : (ks : List ℕ) → NoDup ks → NoDup (backwards ks)
NoDup-backwards [] nd = tt
NoDup-backwards (k ∷ ks) nd =
    NoDup-snoc (backwards ks) k (NoDup-backwards ks nd.1) (λ h. nd.0 (In-backwards k ks h))

-- Of a spec, the two links.
abbrev pub SameLinks : Planning → Planning → ℕ → Type 0
SameLinks p p' j =
    ((p'.specs j).prev_spec ≡ (p.specs j).prev_spec)
    × ((p'.specs j).next_spec ≡ (p.specs j).next_spec)

abbrev joined : Planning → ℕ → ℕ → Planning
joined p s2 k = write_prev (write_next p s2 (some k)) k (some s2)

joined_next : (p : Planning) (s2 k : ℕ) → ((joined p s2 k).specs s2).next_spec ≡ some k
joined_next p s2 k = ground (arith, ==_iff s2 k, ==_iff s2 s2, ==_iff k s2)

joined_prev : (p : Planning) (s2 k : ℕ) → ((joined p s2 k).specs k).prev_spec ≡ some s2
joined_prev p s2 k = ground (arith, ==_iff k k)

joined-next_other :
    (p : Planning) (s2 k j : ℕ)
    → j ≢ s2
    → ((joined p s2 k).specs j).next_spec ≡ (p.specs j).next_spec
joined-next_other p s2 k j n = ground (arith, ==_iff j k, ==_iff j s2, ==_iff k s2)

joined-prev_other :
    (p : Planning) (s2 k j : ℕ)
    → j ≢ k
    → ((joined p s2 k).specs j).prev_spec ≡ (p.specs j).prev_spec
joined-prev_other p s2 k j n = ground (arith, ==_iff j k, ==_iff j s2)

pub record Relinked (p p' : Planning) (s2 : ℕ) (ks : List ℕ) (s1 : ℕ) : Type 0 where
  pub linked : Doubly p' s2 (ks ++ s1 ∷ [])
  pub next_same : (j : ℕ) → (In j (s2 ∷ ks) → ⊥) → (p'.specs j).next_spec ≡ (p.specs j).next_spec
  pub prev_same : (j : ℕ) → (In j ks → ⊥) → j ≢ s1 → (p'.specs j).prev_spec ≡ (p.specs j).prev_spec

relink_lem :
    (ks rest : List ℕ) (s2 s1 : ℕ) (p : Planning)
    → NoDup (s2 ∷ ks)
    → (In s1 (s2 ∷ ks) → ⊥)
    → Relinked p (relink (ks ++ s1 ∷ rest) s2 s1 p) s2 ks s1
unfolding relink
relink_lem [] rest s2 s1 p nd off =
    let at : (s1 == s1) ≡ true = ground (arith, ==_iff s1 s1) in
    rw at (record {
      linked = (joined_next p s2 s1, joined_prev p s2 s1, tt);
      next_same = λ j h. joined-next_other p s2 s1 j (λ e. h (inl e));
      prev_same = λ j h n. joined-prev_other p s2 s1 j n;
    })
relink_lem (k ∷ ks) rest s2 s1 p nd off =
    let n : k ≢ s1 = λ e. off (inr (inl (sym e))) in
    let apart : (k == s1) ≡ false = ground (arith, ==_iff k s1) in
    let r = relink_lem ks rest k s1 (joined p s2 k) nd.1 (λ h. off (inr h)) in
    rw apart (record {
      linked = (
        r.next_same s2 nd.0 ∙ joined_next p s2 k,
        r.prev_same k nd.1.0 (λ e. off (inr (inl (sym e)))) ∙ joined_prev p s2 k,
        r.linked,
      );
      next_same =
          λ j h. r.next_same j (λ g. h (inr g)) ∙ joined-next_other p s2 k j (λ e. h (inl e));
      prev_same =
          λ j h n. r.prev_same j (λ g. h (inr g)) n ∙ joined-prev_other p s2 k j (λ e. h (inl e));
    })

pub relink_at :
    (is ks rest : List ℕ) (s2 s1 : ℕ) (p : Planning)
    → is ≡ ks ++ s1 ∷ rest
    → NoDup (s2 ∷ ks)
    → (In s1 (s2 ∷ ks) → ⊥)
    → Relinked p (relink is s2 s1 p) s2 ks s1
relink_at is ks rest s2 s1 p e nd off = rw e (relink_lem ks rest s2 s1 p nd off)
