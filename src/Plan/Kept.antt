-- ===== src/Plan/Kept.antt =====
-- What the scans keep unchecked: a spec of which nothing is amiss.
use renameutils.Common.{
  ℕ, Bool, true, false, List, [], ◌∷◌, Option, none, some, ◌≡◌, ◌≢◌, inl, inr, refl, sym, ap, ◌∙◌,
  arith, ==_iff, ◌==◌, Bytes, str_eq, str_eq_iff, Bool-cases, same_some,
}
use renameutils.Dictionary.{Dictionary}
use renameutils.Plan.{
  Status, Planning, is_unchecked, refuse, exists_here, for_each, duplicate, no_change_step,
  old_missing_step, mark_duplicates, duplicate_step, duplicate_scan, new_exists_step,
}
use renameutils.Plan.Narrow.{In, IsUnchecked, Narrows, Narrows-refl, Narrows-trans}
use renameutils.Plan.Duplicates.{mark-Narrows, step_on, step_off}
use renameutils.Plan.Invariant.{NoDup}

-- A spec that is unchecked, with these names.
abbrev pub Open : ℕ → Bytes → Bytes → Planning → Type 0
Open j old new p = IsUnchecked p j × ((p.specs j).old_name ≡ old) × ((p.specs j).new_name ≡ new)

pub no_change_step-Open :
    (j : ℕ) (old new : Bytes)
    → old ≢ new
    → (i : ℕ) (p : Planning) → Open j old new p
    → Open j old new (no_change_step i p)
unfolding no_change_step
no_change_step-Open j old new h i p (u, eo, en) =
    let s = str_eq_iff (p.specs i).old_name (p.specs i).new_name in
    let e = ==_iff j i in (ground arith, ground arith, ground arith)

module _ (file_exists : Bytes → Bool) (work_directory : Bytes) where
  pub old_missing_step-Open :
      (j : ℕ) (old new : Bytes)
      → exists_here file_exists work_directory old ≡ true
      → (i : ℕ) (p : Planning) → Open j old new p
      → Open j old new (old_missing_step file_exists work_directory i p)
  unfolding old_missing_step
  old_missing_step-Open j old new h i p (u, eo, en) =
      let e = ==_iff j i in (ground arith, ground arith, ground arith)

  pub new_exists_step-Open :
      (j : ℕ) (old new : Bytes)
      → exists_here file_exists work_directory new ≡ false
      → (i : ℕ) (p : Planning) → Open j old new p
      → Open j old new (new_exists_step file_exists work_directory i p)
  unfolding new_exists_step
  new_exists_step-Open j old new h i p (u, eo, en) =
      let e = ==_iff j i in (ground arith, ground arith, ground arith)

module _ (dict : Dictionary) where
  open dict use {Map, empty, get, put}

  pub refuse-Open :
      (status : Status) (i j : ℕ) (old new : Bytes) (p : Planning)
      → j ≢ i
      → Open j old new p
      → Open j old new (refuse p i status)
  refuse-Open status i j old new p n (u, eo, en) =
      let e = ==_iff j i in (ground arith, ground arith, ground arith)

  mark_duplicates-Open :
      (i j : ℕ) (o : Option ℕ) (old new : Bytes) (p : Planning)
      → j ≢ i
      → o ≢ some j
      → Open j old new p
      → Open j old new (mark_duplicates dict i o p)
  mark_duplicates-Open i j none old new p n k h = h
  mark_duplicates-Open i j (some d) old new p n k h =
      elim (Bool-cases (is_unchecked (p.specs d).status)) [
        | inl yes' ↦ rw yes' (
            refuse-Open duplicate i j old new (refuse p d duplicate) n
              (refuse-Open duplicate d j old new p (λ e. k (rw e refl)) h))
        | inr no' ↦ rw no' (refuse-Open duplicate i j old new p n h)
      ]

  -- What the loop of `duplicate_scan` keeps for a spec whose new name is its own, in front of `is`.
  record Sole (p₀ : Planning) (j : ℕ) (old new : Bytes) (is : List ℕ) (m : Map) (p : Planning)
      : Type 0 where
    still : Open j old new p
    narrows : Narrows p₀ p
    owner : (n : Bytes) → get m n ≡ some j → n ≡ new
    before : In j is → get m new ≡ none

  Sole-skip :
      (p₀ : Planning) (i j : ℕ) (old new : Bytes) (is : List ℕ) (m : Map) (p : Planning)
      → Sole p₀ j old new (i ∷ is) m p
      → Sole p₀ j old new is m p
  Sole-skip p₀ i j old new is m p s = record {
    still = s.still;
    narrows = s.narrows;
    owner = s.owner;
    before = λ h. s.before (inr h);
  }

  Sole-own :
      (p₀ : Planning) (i j : ℕ) (old new : Bytes) (is : List ℕ) (m : Map) (p : Planning)
      → i ≡ j
      → (In i is → ⊥)
      → (p.specs i).new_name ≡ new
      → Sole p₀ j old new (i ∷ is) m p
      → Sole p₀ j old new is (put m new i).1 p
  Sole-own p₀ i j old new is m p e once n s = record {
    still = s.still;
    narrows = s.narrows;
    owner = λ x h.
        let g = sym (dict.get-put m new x i) ∙ h in
        let o = s.owner x in let q = str_eq_iff x new in ground arith;
    before = λ h. absurd (once (rw e h));
  }

  Sole-other :
      (p₀ : Planning) (i j : ℕ) (old new name : Bytes) (is : List ℕ) (m : Map) (p p' : Planning)
      → j ≢ i
      → name ≢ new
      → Open j old new p'
      → Narrows p p'
      → Sole p₀ j old new (i ∷ is) m p
      → Sole p₀ j old new is (put m name i).1 p'
  Sole-other p₀ i j old new name is m p p' n differ still narrow s = record {
    still = still;
    narrows = Narrows-trans s.narrows narrow;
    owner = λ x h.
        let g = sym (dict.get-put m name x i) ∙ h in
        elim (Bool-cases (str_eq x name)) [
          | inl same ↦ absurd (n (sym (same_some (rw same at g))))
          | inr far ↦ s.owner x (rw far at g)
        ];
    before = λ h.
        let b = s.before (inr h) in
        let q = str_eq_iff new name in dict.get-put m name new i ∙ ground arith;
  }

  duplicate_step-Sole :
      (p₀ : Planning) (i j : ℕ) (old new : Bytes) (is : List ℕ) (m : Map) (p : Planning)
      → (In i is → ⊥)
      → (i ≢ j → (p₀.specs i).new_name ≢ new)
      → Sole p₀ j old new (i ∷ is) m p
      → Sole p₀ j old new is (duplicate_step dict i (m, p)).0 (duplicate_step dict i (m, p)).1
  duplicate_step-Sole p₀ i j old new is m p once alone s =
      elim (Bool-cases (is_unchecked (p.specs i).status)) [
        | inr off ↦ rw (step_off dict i m p off) (Sole-skip p₀ i j old new is m p s)
        | inl on ↦ elim (Bool-cases (i == j)) [
          | inl same ↦
              let e = (==_iff i j).0 same in
              let name : (p.specs i).new_name ≡ new =
                ap (λ k. (p.specs k).new_name) e ∙ s.still.2 in
              let none' = s.before (inl (sym e)) in
              rw (step_on dict i m p on, name, none') (Sole-own p₀ i j old new is m p e once name s)
          | inr other ↦
              let n : j ≢ i = ground (arith, ==_iff i j) in
              let name = (p.specs i).new_name in
              let differ : name ≢ new =
                λ e. alone (λ k. n (sym k)) (sym (s.narrows.new_same i) ∙ e) in
              let o = get m name in
              rw (step_on dict i m p on) (
                Sole-other p₀ i j old new name is m p (mark_duplicates dict i o p) n differ
                  (mark_duplicates-Open i j o old new p n (λ e. differ (s.owner name e)) s.still)
                  (mark-Narrows dict i o p) s)
        ]
      ]

  duplicate_loop-Sole :
      (p₀ : Planning) (j : ℕ) (old new : Bytes) (is : List ℕ) (m : Map) (p : Planning)
      → NoDup is
      → ((i : ℕ) → In i is → i ≢ j → (p₀.specs i).new_name ≢ new)
      → Sole p₀ j old new is m p
      → Open j old new (for_each (duplicate_step dict) is (m, p)).1
  duplicate_loop-Sole p₀ j old new [] m p nd alone s = s.still
  duplicate_loop-Sole p₀ j old new (i ∷ is) m p (once, nd) alone s =
      duplicate_loop-Sole p₀ j old new is (duplicate_step dict i (m, p)).0
        (duplicate_step dict i (m, p)).1 nd (λ k h. alone k (inr h))
        (duplicate_step-Sole p₀ i j old new is m p once (alone i (inl refl)) s)

  pub duplicate_scan-Open :
      (is : List ℕ) (p : Planning) (j : ℕ)
      → NoDup is
      → IsUnchecked p j
      → ((i : ℕ) → In i is → i ≢ j → (p.specs i).new_name ≢ (p.specs j).new_name)
      → Open j (p.specs j).old_name (p.specs j).new_name (duplicate_scan dict is p)
  unfolding duplicate_scan
  duplicate_scan-Open is p j nd u alone =
      duplicate_loop-Sole p j (p.specs j).old_name (p.specs j).new_name is empty p nd alone
        (record {
          still = (u, refl, refl);
          narrows = Narrows-refl p;
          owner = λ n h. ground (arith, dict.get-empty n);
          before = λ h. dict.get-empty (p.specs j).new_name;
        })
