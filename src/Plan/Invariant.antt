-- ===== src/Plan/Invariant.antt =====
-- What every step of `topologic_sort` keeps: the renames so far are safe, and the old names that are
-- available are free.
use mathlib.Core.Bool.{true≢false}
use renameutils.Common.{
  ℕ, true, false, List, [], ◌∷◌, ◌++◌, none, some, ◌≡◌, ◌≢◌, ◌⊎◌, inl, inr, refl, sym, ap, ◌∙◌,
  arith, ==_iff, Bytes, str_eq_iff,
}
use renameutils.Dictionary.{Dictionary}
use renameutils.Plan.{Planning, apply, accept}
use renameutils.Plan.Narrow.{
  In, IsUnchecked, Narrows, Narrows-trans, Narrows-specs, set_status-Narrows,
}
use renameutils.Plan.Files.{FileSet, final, Safe, final-snoc, Safe-snoc}
use renameutils.Plan.Sort.{Sorting, link, take_free}
use renameutils.Plan.Linked.{In-snoc, LinkInv, take_free-LinkInv}

-- What the scans before the sort have seen to, of the specs that are still unchecked.
pub record Ready (files : FileSet) (renames : List ℕ) (p : Planning) : Type 0 where
  pub old_there : (j : ℕ) → In j renames → IsUnchecked p j → files (p.specs j).old_name ≡ true
  pub old_distinct :
      (j k : ℕ)
      → In j renames
      → In k renames
      → IsUnchecked p j
      → IsUnchecked p k
      → (p.specs j).old_name ≡ (p.specs k).old_name
      → j ≡ k
  pub new_distinct :
      (j k : ℕ)
      → In j renames
      → In k renames
      → IsUnchecked p j
      → IsUnchecked p k
      → (p.specs j).new_name ≡ (p.specs k).new_name
      → j ≡ k

abbrev pub NoDup : List ℕ → Type 0
NoDup [] = Unit
NoDup (i ∷ is) = (In i is → ⊥) × NoDup is

pub accept-Narrows : (p : Planning) (i : ℕ) → Narrows p (accept p i)
accept-Narrows p i = Narrows-specs (set_status-Narrows p i apply refl) refl

pub accept_off : (p : Planning) (i j : ℕ) → IsUnchecked (accept p i) j → j ≢ i
accept_off p i j u = ground (arith, ==_iff j i)

pub accept_on : (p : Planning) (i j : ℕ) → j ≢ i → IsUnchecked p j → IsUnchecked (accept p i) j
accept_on p i j n u = ground (arith, ==_iff j i)

pub link-specs : (p : Planning) (i d j : ℕ) → ((link p i d).specs j).status ≡ (p.specs j).status
unfolding link
link-specs p i d j = ground (arith, ==_iff j d, ==_iff j i, ==_iff d i)

pub link-Narrows : (p : Planning) (i d : ℕ) → Narrows p (link p i d)
unfolding link
link-Narrows p i d = record {
  old_same = λ j. ground (arith, ==_iff j d, ==_iff j i, ==_iff d i);
  new_same = λ j. ground (arith, ==_iff j d, ==_iff j i, ==_iff d i);
  still = λ j. ground (arith, ==_iff j d, ==_iff j i, ==_iff d i);
}

module _ (dict : Dictionary) (files : FileSet) (renames : List ℕ) (p₀ : Planning)
    (ready : Ready files renames p₀) where
  open dict use {Map, empty, get, put, remove}

  abbrev pub old : ℕ → Bytes
  old j = (p₀.specs j).old_name

  abbrev pub new : ℕ → Bytes
  new j = (p₀.specs j).new_name

  -- What exists once the renames of the plan so far are done.
  abbrev pub now : Planning → FileSet
  now p = final old new files p.ok

  -- No spec waits for another at the start.
  abbrev pub Idle : Type 0
  Idle = (j : ℕ) → (p₀.specs j).prev_spec ≡ none

  pub record Inv (a : Map) (p : Planning) : Type 0 where
    pub narrows : Narrows p₀ p
    pub safe : Safe old new files p.ok
    pub present : (j : ℕ) → In j renames → IsUnchecked p j → now p (old j) ≡ true
    pub clear :
        (j : ℕ) → In j renames → IsUnchecked p j → files (new j) ≡ false → now p (new j) ≡ false
    pub free : (n : Bytes) (k : ℕ) → get a n ≡ some k → (now p n ≡ false) × (files n ≡ true)
    pub links : Idle → LinkInv dict a p
    pub listed : (j : ℕ) → In j p.ok → In j renames

  -- One more rename, whose destination is free.
  pub accept-Inv :
      (a a' : Map) (p p' : Planning) (i : ℕ)
      → Inv a p
      → In i renames
      → IsUnchecked p i
      → now p (new i) ≡ false
      → Narrows p p'
      → ((j : ℕ) → IsUnchecked p' j → j ≢ i)
      → p'.ok ≡ p.ok ++ i ∷ []
      → ((j : ℕ) → In j renames → IsUnchecked p j → j ≢ i → files (new j) ≡ false → new j ≢ new i)
      → ((n : Bytes) (k : ℕ) → get a' n ≡ some k → (n ≢ new i) × ((n ≡ old i) ⊎ (get a n ≡ some k)))
      → (Idle → LinkInv dict a' p')
      → Inv a' p'
  accept-Inv a a' p p' i v hi ui open' narrow others e apart avail linked = record {
    narrows = Narrows-trans v.narrows narrow;
    safe = rw e (Safe-snoc old new files p.ok i v.safe (v.present i hi ui) open');
    present = λ j hj uj.
        let was = narrow.still j uj in
        let same = ready.old_distinct j i hj hi (v.narrows.still j was) (v.narrows.still i ui) in
        rw (e, final-snoc)
          (ground (arith, v.present j hj was, str_eq_iff (old j) (old i), others j uj));
    clear = λ j hj uj f.
        let was = narrow.still j uj in
        rw (e, final-snoc)
          (ground (
            arith,
            v.clear j hj was f,
            str_eq_iff (new j) (new i),
            apart j hj was (others j uj) f,
          ));
    free = λ n k h.
        let known = avail n k h in
        let old_there = ready.old_there i hi (v.narrows.still i ui) in
        (
          rw (e, final-snoc)
              (ground (arith, v.free n k, str_eq_iff n (new i), str_eq_iff n (old i))),
          ground (arith, v.free n k),
        );
    links = linked;
    listed =
        λ j h. elim (In-snoc j p.ok i (rw e at h)) [ inl g ↦ v.listed j g | inr at ↦ rw at hi ];
  }

  -- What a loop over `is` makes of the state: the list that it leaves holds unchecked specs of `is`.
  pub record Left (is : List ℕ) (p : Planning) (pending : List ℕ) (a' : Map) (p' : Planning)
      : Type 0 where
    pub inv : Inv a' p'
    pub frame : (j : ℕ) → (In j is → ⊥) → IsUnchecked p j → IsUnchecked p' j
    pub from_list : (j : ℕ) → In j pending → In j is
    pub waiting : (j : ℕ) → In j pending → IsUnchecked p' j
    pub once : NoDup pending

  -- A spec that stays is put in front of the list.
  pub stay-Left :
      (i : ℕ) (is : List ℕ) (p : Planning) (pending : List ℕ) (a' : Map) (p' : Planning)
      → (In i is → ⊥)
      → IsUnchecked p i
      → Left is p pending a' p'
      → Left (i ∷ is) p (i ∷ pending) a' p'
  stay-Left i is p pending a' p' new u l = record {
    inv = l.inv;
    frame = λ j n. l.frame j (λ h. n (inr h));
    from_list = λ j h. elim h [ inl e ↦ inl e | inr k ↦ inr (l.from_list j k) ];
    waiting = λ j h. elim h [ inl e ↦ rw e (l.frame i new u) | inr k ↦ l.waiting j k ];
    once = (λ h. new (l.from_list i h), l.once);
  }

  -- A spec that goes is not in the list.
  pub leave-Left :
      (i : ℕ) (is : List ℕ) (p q : Planning) (pending : List ℕ) (a' : Map) (p' : Planning)
      → ((j : ℕ) → j ≢ i → IsUnchecked p j → IsUnchecked q j)
      → Left is q pending a' p'
      → Left (i ∷ is) p pending a' p'
  leave-Left i is p q pending a' p' keep l = record {
    inv = l.inv;
    frame = λ j n u. l.frame j (λ h. n (inr h)) (keep j (λ e. n (inl e)) u);
    from_list = λ j h. inr (l.from_list j h);
    waiting = l.waiting;
    once = l.once;
  }

  -- What is left of the map once `taken` is put in and `given` taken out.
  get-swap :
      (a : Map) (taken given n : Bytes) (i k : ℕ)
      → get (remove (put a taken i).1 given).1 n ≡ some k
      → (n ≢ given) × ((n ≡ taken) ⊎ (get a n ≡ some k))
  get-swap a taken given n i k h =
      let m = (put a taken i).1 in
      let h' = sym (dict.get-remove m given n) ∙ h in
      let e = dict.get-put a taken n i in
      (ground (arith, str_eq_iff n given), ground (arith, str_eq_iff n given, str_eq_iff n taken))

  -- The state once `i` has taken the name that `depend` gave up.
  pub take_free-Inv :
      (s : Sorting dict) (i depend : ℕ)
      → Inv s.available s.planning
      → In i renames
      → IsUnchecked s.planning i
      → get s.available (s.planning.specs i).new_name ≡ some depend
      → Inv (take_free dict s i depend).available (take_free dict s i depend).planning
  unfolding take_free
  take_free-Inv s i depend v hi ui found =
      let p = s.planning in
      let linked = link p i depend in
      let found' : get s.available (new i) ≡ some depend = rw (v.narrows.new_same i) at found in
      let open' = v.free (new i) depend found' in
      accept-Inv s.available _ p (accept linked i) i v hi ui open'.0
        (Narrows-trans (link-Narrows p i depend) (accept-Narrows linked i))
        (λ j. accept_off linked i j) refl
        (λ j hj uj n f e. true≢false (sym open'.1 ∙ ap files (sym e) ∙ f))
        (λ n k h.
          rw (v.narrows.new_same i, v.narrows.old_same i) at
            (get-swap s.available (p.specs i).old_name (p.specs i).new_name n i k h))
        (λ idle. take_free-LinkInv dict s i depend (v.links idle) ui found)
