-- ===== src/Plan/Linked.antt =====
-- The links that `topologic_sort` makes, step by step.
use renameutils.Common.{
  ℕ, true, false, List, [], ◌∷◌, ◌++◌, none, some, ◌≡◌, ◌≢◌, ◌⊎◌, inl, inr, refl, sym, ap, ◌∙◌,
  arith, ==_iff, Bytes, str_eq_iff, Bool-cases, str_eq,
}
use renameutils.Dictionary.{Dictionary}
use renameutils.Plan.{Planning, Status, is_unchecked, accept}
use renameutils.Plan.Narrow.{In, IsUnchecked}
use renameutils.Plan.Sort.{Sorting, link, take_free}
use renameutils.Plan.Chained.{Waits, Chained, Chained-snoc, Chained-same}
use renameutils.Apply.{is_planned}

pub In-left : (j : ℕ) (ks : List ℕ) (i : ℕ) → In j ks → In j (ks ++ i ∷ [])
In-left j [] i h = absurd h
In-left j (k ∷ ks) i (inl e) = inl e
In-left j (k ∷ ks) i (inr h) = inr (In-left j ks i h)

In-last : (ks : List ℕ) (i : ℕ) → In i (ks ++ i ∷ [])
In-last [] i = inl refl
In-last (k ∷ ks) i = inr (In-last ks i)

pub In-snoc : (j : ℕ) (ks : List ℕ) (i : ℕ) → In j (ks ++ i ∷ []) → In j ks ⊎ (j ≡ i)
In-snoc j [] i (inl e) = inr e
In-snoc j [] i (inr h) = absurd h
In-snoc j (k ∷ ks) i (inl e) = inl (inl e)
In-snoc j (k ∷ ks) i (inr h) = elim (In-snoc j ks i h) [ inl g ↦ inl (inr g) | inr e ↦ inr e ]

-- The two writes of `link`.
record LinkLem (p q : Planning) (i depend : ℕ) : Type 0 where
  old_same : (j : ℕ) → (q.specs j).old_name ≡ (p.specs j).old_name
  status_same : (j : ℕ) → (q.specs j).status ≡ (p.specs j).status
  prev_self : (q.specs i).prev_spec ≡ some depend
  prev_other : (j : ℕ) → j ≢ i → (q.specs j).prev_spec ≡ (p.specs j).prev_spec
  prev_cases :
      (j k : ℕ)
      → (q.specs j).prev_spec ≡ some k
      → (k ≡ depend × (j ≡ i)) ⊎ ((p.specs j).prev_spec ≡ some k)
  next_self : (q.specs depend).next_spec ≡ some i
  next_other : (j : ℕ) → j ≢ depend → (q.specs j).next_spec ≡ (p.specs j).next_spec

link_lem : (p : Planning) (i depend : ℕ) → depend ≢ i → LinkLem p (link p i depend) i depend
unfolding link
link_lem p i depend n = record {
  old_same = λ j. ground (arith, ==_iff j depend, ==_iff j i, ==_iff depend i);
  status_same = λ j. ground (arith, ==_iff j depend, ==_iff j i, ==_iff depend i);
  prev_self = ground (arith, ==_iff i depend, ==_iff i i);
  prev_other = λ j h. ground (arith, ==_iff j depend, ==_iff j i, ==_iff depend i);
  prev_cases = λ j k e. ground (arith, e, ==_iff j depend, ==_iff j i, ==_iff depend i);
  next_self = ground (arith, ==_iff depend depend);
  next_other = λ j h. ground (arith, ==_iff j depend, ==_iff j i);
}

accept_old : (q : Planning) (i j : ℕ) → ((accept q i).specs j).old_name ≡ (q.specs j).old_name
accept_old q i j = ground (arith, ==_iff j i)

accept_closed :
    (q : Planning) (i j : ℕ) {status : Status}
    → (q.specs j).status ≡ status
    → is_unchecked status ≡ false
    → is_unchecked ((accept q i).specs j).status ≡ false
accept_closed q i j e c = ground (arith, e, c, ==_iff j i)

accept_idle :
    (q : Planning) (i j : ℕ)
    → IsUnchecked (accept q i) j
    → (j ≢ i) × (is_unchecked (q.specs j).status ≡ true)
accept_idle q i j u = (ground (arith, u, ==_iff j i), ground (arith, u, ==_iff j i))

module _ (dict : Dictionary) where
  open dict use {Map, empty, get, put, remove}

  pub record LinkInv (a : Map) (p : Planning) : Type 0 where
    pub chained : Chained p.specs [] p.ok
    pub closed : (j : ℕ) → In j p.ok → is_unchecked (p.specs j).status ≡ false
    pub idle : (j : ℕ) → IsUnchecked p j → (p.specs j).prev_spec ≡ none
    pub owner : (n : Bytes) (k : ℕ) → get a n ≡ some k → In k p.ok × ((p.specs k).old_name ≡ n)
    pub unclaimed : (n : Bytes) (k j : ℕ) → get a n ≡ some k → (p.specs j).prev_spec ≡ some k → ⊥
    pub prev_ok : (j k : ℕ) → (p.specs j).prev_spec ≡ some k → In k p.ok

  -- A spec that has not been taken.
  LinkInv-off : (a : Map) (p : Planning) (i : ℕ) → LinkInv a p → IsUnchecked p i → In i p.ok → ⊥
  LinkInv-off a p i v u h = let c = v.closed i h in ground (arith, c, u)

  put_cases :
      (a : Map) (taken n : Bytes) (i k : ℕ)
      → get (put a taken i).1 n ≡ some k
      → ((n ≡ taken) × (k ≡ i)) ⊎ (get a n ≡ some k)
  put_cases a taken n i k h =
      let e = sym (dict.get-put a taken n i) ∙ h in ground (arith, e, str_eq_iff n taken)

  swap_cases :
      (a : Map) (taken given n : Bytes) (i k : ℕ)
      → get (remove (put a taken i).1 given).1 n ≡ some k
      → (n ≢ given) × (((n ≡ taken) × (k ≡ i)) ⊎ (get a n ≡ some k))
  swap_cases a taken given n i k h =
      let e = sym (dict.get-remove (put a taken i).1 given n) ∙ h in
      elim (Bool-cases (str_eq n given)) [
        | inl at ↦ absurd (let g : none ≡ some k = rw at at e in ground (arith, g))
        | inr off ↦ (ground (arith, off, str_eq_iff n given), put_cases a taken n i k (rw off at e))
      ]

  -- `ok` and the links once `i` has been accepted, where `q` differs from `p` in the links alone.
  accept-Chained :
      (p q : Planning) (i : ℕ)
      → q.ok ≡ p.ok
      → (In i p.ok → ⊥)
      → Chained q.specs [] p.ok
      → ((before : List ℕ) → ((d : ℕ) → In d p.ok → In d before) → Waits q.specs before i)
      → Chained (accept q i).specs [] (accept q i).ok
  accept-Chained p q i same off c w =
      let q' = accept q i in
      let other : (j : ℕ) → In j p.ok → j ≢ i = λ j h e. off (rw e at h) in
      let links : (j : ℕ)
          → ((q'.specs j).prev_spec ≡ (q.specs j).prev_spec)
            × ((q'.specs j).next_spec ≡ (q.specs j).next_spec) =
        λ j. (ground (arith, ==_iff j i), ground (arith, ==_iff j i)) in
      let c' =
        Chained-same q.specs q'.specs [] p.ok
          (λ j h. let n = other j h in ground (arith, ==_iff j i)) (λ j h. (links j).0)
          (λ j d h e. (links d).1) c in
      rw same (
        Chained-snoc q'.specs [] p.ok i c' (ground (arith, ==_iff i i)) (λ before sub.
          elim (w before (λ d h. sub d (inl h))) [
            | inl e ↦ inl ((links i).0 ∙ e)
            | inr (d, h, v, n) ↦ inr (d, h, (links i).0 ∙ v, (links d).1 ∙ n)
          ]))

  pub accept-LinkInv :
      (a : Map) (p : Planning) (i : ℕ)
      → LinkInv a p
      → IsUnchecked p i
      → LinkInv (put a (p.specs i).old_name i).1 (accept p i)
  accept-LinkInv a p i v u =
      let off = LinkInv-off a p i v u in
      let same_prev : (j : ℕ) → ((accept p i).specs j).prev_spec ≡ (p.specs j).prev_spec =
        λ j. ground (arith, ==_iff j i) in
      let same_old : (j : ℕ) → ((accept p i).specs j).old_name ≡ (p.specs j).old_name =
        λ j. ground (arith, ==_iff j i) in
      record {
        chained = accept-Chained p p i refl off v.chained (λ before sub. inl (v.idle i u));
        closed = λ j h. elim (In-snoc j p.ok i h) [
          | inl g ↦ let c = v.closed j g in ground (arith, c, ==_iff j i)
          | inr e ↦ ground (arith, e, ==_iff j i)
        ];
        idle = λ j w. same_prev j ∙ v.idle j (ground (arith, w, ==_iff j i));
        owner = λ n k h. elim (put_cases a (p.specs i).old_name n i k h) [
          | inl (e, at) ↦ rw at (In-last p.ok i, same_old i ∙ sym e)
          | inr g ↦ (In-left k p.ok i (v.owner n k g).0, same_old k ∙ (v.owner n k g).1)
        ];
        unclaimed = λ n k j h e.
            let e' = sym (same_prev j) ∙ e in
            elim (put_cases a (p.specs i).old_name n i k h) [
              | inl (at', at) ↦ off (rw at at (v.prev_ok j k e'))
              | inr g ↦ v.unclaimed n k j g e'
            ];
        prev_ok = λ j k e. In-left k p.ok i (v.prev_ok j k (sym (same_prev j) ∙ e));
      }

  pub take_free-LinkInv :
      (s : Sorting dict) (i depend : ℕ)
      → LinkInv s.available s.planning
      → IsUnchecked s.planning i
      → get s.available (s.planning.specs i).new_name ≡ some depend
      → LinkInv (take_free dict s i depend).available (take_free dict s i depend).planning
  unfolding take_free
  take_free-LinkInv s i depend v u found =
      let p = s.planning in
      let q = link p i depend in
      let n = (p.specs i).new_name in
      let off = LinkInv-off s.available p i v u in
      let (there, old) = v.owner n depend found in
      let apart : depend ≢ i = λ e. off (rw e at there) in
      let l = link_lem p i depend apart in
      let same_prev : (j : ℕ) → ((accept q i).specs j).prev_spec ≡ (q.specs j).prev_spec =
        λ j. ground (arith, ==_iff j i) in
      let same_old : (j : ℕ) → ((accept q i).specs j).old_name ≡ (p.specs j).old_name =
        λ j. accept_old q i j ∙ l.old_same j in
      -- What waits in the new state waited before, or is the new one.
      let earlier : (j k : ℕ)
          → ((accept q i).specs j).prev_spec ≡ some k
          → (k ≡ depend × (j ≡ i)) ⊎ ((p.specs j).prev_spec ≡ some k) =
        λ j k e. l.prev_cases j k (sym (same_prev j) ∙ e) in
      let c =
        Chained-same p.specs q.specs [] p.ok (λ j h. ap is_planned (l.status_same j))
          (λ j h. l.prev_other j (λ e. off (rw e at h)))
          (λ j d h e. l.next_other d (λ at. v.unclaimed n depend j found (e ∙ ap some at)))
          v.chained in
      record {
        chained =
            accept-Chained p q i refl off c
              (λ before sub. inr (depend, sub depend there, l.prev_self, l.next_self));
        closed = λ j h. elim (In-snoc j p.ok i h) [
          | inl g ↦ let c' = v.closed j g in accept_closed q i j (l.status_same j) c'
          | inr e ↦ ground (arith, e, ==_iff j i)
        ];
        idle = λ j w.
            let (n', was) = accept_idle q i j w in
            same_prev j
            ∙ l.prev_other j n'
            ∙ v.idle j (sym (ap is_unchecked (l.status_same j)) ∙ was);
        owner = λ m k h. elim (swap_cases s.available (p.specs i).old_name n m i k h).1 [
          | inl (e, at) ↦ rw at (In-last p.ok i, same_old i ∙ sym e)
          | inr g ↦ (In-left k p.ok i (v.owner m k g).0, same_old k ∙ (v.owner m k g).1)
        ];
        unclaimed = λ m k j h e.
            let (differ, known) = swap_cases s.available (p.specs i).old_name n m i k h in
            elim (earlier j k e) [
              | inl (at, at') ↦ elim known [
                | inl (e', back) ↦ apart (sym at ∙ back)
                | inr g ↦ differ (sym (v.owner m k g).1 ∙ ap (λ d. (p.specs d).old_name) at ∙ old)
              ]
              | inr e' ↦ elim known [
                | inl (at', at) ↦ off (rw at at (v.prev_ok j k e'))
                | inr g ↦ v.unclaimed m k j g e'
              ]
            ];
        prev_ok = λ j k e. elim (earlier j k e) [
          | inl (at, at') ↦ rw at (In-left depend p.ok i there)
          | inr e' ↦ In-left k p.ok i (v.prev_ok j k e')
        ];
      }

  pub empty-LinkInv :
      (p : Planning) → p.ok ≡ [] → ((j : ℕ) → (p.specs j).prev_spec ≡ none) → LinkInv empty p
  empty-LinkInv p fresh waits = record {
    chained = rw fresh tt;
    closed = λ j h. absurd (rw fresh at h);
    idle = λ j u. waits j;
    owner = λ n k h. absurd (let e = dict.get-empty n in ground (arith, e, h));
    unclaimed = λ n k j h. absurd (let e = dict.get-empty n in ground (arith, e, h));
    prev_ok = λ j k h. absurd (let e = waits j in ground (arith, e, h));
  }
