-- ===== src/Plan/Complete.antt =====
-- What the plan of qcp must not leave out.
use renameutils.Common.{
  ℕ, Bool, true, false, List, [], ◌∷◌, ◌++◌, none, ◌≡◌, ◌≢◌, inl, inr, refl, sym, ap, ◌∙◌, arith,
  ==_iff, ◌==◌, Bytes, str_eq, str_eq_iff, Bool-cases, Option-cases,
}
use renameutils.Dictionary.{Dictionary}
use renameutils.Plan.{
  Planning, is_unchecked, new_exists, exists_here, for_each, no_change_step, no_change_scan,
  old_missing_step, old_missing_scan, common_scans, new_exists_step, new_is_old_step,
  old_names_step, new_exists_scan, apply_unchecked_step, apply_unchecked, make_copy_plan,
}
use renameutils.Plan.Narrow.{In, IsUnchecked, for_each-keep}
use renameutils.Plan.Invariant.{NoDup}
use renameutils.Plan.Fresh.{previous_scan-fresh, common_scans-Narrows}
use renameutils.Plan.Kept.{
  Open, no_change_step-Open, old_missing_step-Open, new_exists_step-Open, refuse-Open,
  duplicate_scan-Open,
}

In-front : (j : ℕ) (is ks : List ℕ) → In j is → In j (is ++ ks)
In-front j [] ks h = absurd h
In-front j (i ∷ is) ks (inl e) = inl e
In-front j (i ∷ is) ks (inr h) = inr (In-front j is ks h)

In-last : (j : ℕ) (is : List ℕ) → In j (is ++ j ∷ [])
In-last j [] = inl refl
In-last j (i ∷ is) = inr (In-last j is)

module _ (dict : Dictionary) where
  open dict use {Map, empty, get, put}

  names_on :
      (i : ℕ) (m : Map) (p : Planning)
      → is_unchecked (p.specs i).status ≡ true
      → old_names_step dict i (m, p) ≡ ((put m (p.specs i).old_name i).1, p)
  unfolding old_names_step
  names_on i m p h = rw h refl

  names_off :
      (i : ℕ) (m : Map) (p : Planning)
      → is_unchecked (p.specs i).status ≡ false
      → old_names_step dict i (m, p) ≡ (m, p)
  unfolding old_names_step
  names_off i m p h = rw h refl

  -- The map of the old names has none that is the new name.
  abbrev Clear : Bytes → List ℕ → Planning → Map × Planning → Type 0
  Clear new is p s =
      (get (for_each (old_names_step dict) is s).0 new ≡ none)
      × ((for_each (old_names_step dict) is s).1 ≡ p)

  Clear-from :
      (new : Bytes) (is : List ℕ) (p : Planning) (s s' : Map × Planning)
      → s ≡ s'
      → Clear new is p s'
      → Clear new is p s
  Clear-from new is p s s' e h = rw e h

  old_names_loop :
      (new : Bytes) (is : List ℕ) (m : Map) (p : Planning)
      → ((i : ℕ) → In i is → (p.specs i).old_name ≢ new)
      → get m new ≡ none
      → (get (for_each (old_names_step dict) is (m, p)).0 new ≡ none)
        × ((for_each (old_names_step dict) is (m, p)).1 ≡ p)
  old_names_loop new [] m p far none' = (none', refl)
  old_names_loop new (i ∷ is) m p far none' =
      let rest = λ (k : ℕ) (h : In k is). far k (inr h) in
      elim (Bool-cases (is_unchecked (p.specs i).status)) [
        | inr off ↦
            Clear-from new is p _ _ (names_off i m p off) (old_names_loop new is m p rest none')
        | inl on ↦
            let q = str_eq_iff new (p.specs i).old_name in
            let apart : str_eq new (p.specs i).old_name ≡ false =
              let f = far i (inl refl) in ground arith in
            Clear-from new is p _ _ (names_on i m p on) (
              old_names_loop new is (put m (p.specs i).old_name i).1 p rest
                (dict.get-put m (p.specs i).old_name new i ∙ rw apart none'))
      ]

  new_is_old_step-Open :
      (j : ℕ) (old new : Bytes) (i : ℕ) (m : Map) (p : Planning)
      → get m new ≡ none
      → Open j old new p
      → ((new_is_old_step dict i (m, p)).0 ≡ m) × Open j old new (new_is_old_step dict i (m, p)).1
  unfolding new_is_old_step
  new_is_old_step-Open j old new i m p none' h =
      elim (Bool-cases (is_unchecked (p.specs i).status)) [
        | inr off ↦ rw off (refl, h)
        | inl on ↦ elim (Option-cases (get m (p.specs i).new_name)) [
          | inl clear ↦ rw (on, clear) (refl, h)
          | inr (k, taken) ↦
              let n : j ≢ i = λ e.
                let name : (p.specs i).new_name ≡ new =
                  ap (λ t. (p.specs t).new_name) (sym e) ∙ h.2 in
                let t = rw name at taken in ground arith in
              rw (on, taken) (refl, refuse-Open dict new_exists i j old new p n h)
        ]
      ]

  new_is_old_loop :
      (j : ℕ) (old new : Bytes) (is : List ℕ) (m : Map) (p : Planning)
      → get m new ≡ none
      → Open j old new p
      → Open j old new (for_each (new_is_old_step dict) is (m, p)).1
  new_is_old_loop j old new [] m p none' h = h
  new_is_old_loop j old new (i ∷ is) m p none' h =
      let r = new_is_old_step-Open j old new i m p none' h in
      new_is_old_loop j old new is (new_is_old_step dict i (m, p)).0
        (new_is_old_step dict i (m, p)).1 (rw r.0 none') r.1

apply_unchecked_step-keeps :
    (j i : ℕ) (p : Planning) → In j p.ok → In j (apply_unchecked_step i p).ok
unfolding apply_unchecked_step
apply_unchecked_step-keeps j i p h = elim (Bool-cases (is_unchecked (p.specs i).status)) [
  | inl on ↦ rw on (In-front j p.ok (i ∷ []) h)
  | inr off ↦ rw off h
]

apply_unchecked_step-adds :
    (j : ℕ) (p : Planning) → IsUnchecked p j → In j (apply_unchecked_step j p).ok
unfolding apply_unchecked_step
apply_unchecked_step-adds j p u = rw u (In-last j p.ok)

apply_unchecked_step-waits :
    (j i : ℕ) (p : Planning) → j ≢ i → IsUnchecked p j → IsUnchecked (apply_unchecked_step i p) j
unfolding apply_unchecked_step
apply_unchecked_step-waits j i p n u = let e = ==_iff j i in ground arith

apply_unchecked-adds :
    (is : List ℕ) (p : Planning) (j : ℕ)
    → In j is
    → IsUnchecked p j
    → In j (apply_unchecked is p).ok
unfolding apply_unchecked
apply_unchecked-adds [] p j h u = absurd h
apply_unchecked-adds (i ∷ is) p j h u = elim (Bool-cases (j == i)) [
  | inl same ↦
      let e = (==_iff j i).0 same in
      for_each-keep (λ q. In j q.ok) apply_unchecked_step (apply_unchecked_step-keeps j) is
        (apply_unchecked_step i p) (rw e (apply_unchecked_step-adds i p (rw e at u)))
  | inr other ↦
      let n : j ≢ i = ground (arith, ==_iff j i) in
      elim h [
        | inl e ↦ absurd (n e)
        | inr k ↦
            apply_unchecked-adds is (apply_unchecked_step i p) j k
              (apply_unchecked_step-waits j i p n u)
      ]
]

module _ (dict : Dictionary) (file_exists : Bytes → Bool) (work_directory : Bytes) where
  open dict use {empty}

  common_scans-Open :
      (is : List ℕ) (p : Planning) (j : ℕ)
      → ((i : ℕ) → In i is → IsUnchecked p i)
      → NoDup is
      → IsUnchecked p j
      → (p.specs j).old_name ≢ (p.specs j).new_name
      → exists_here file_exists work_directory (p.specs j).old_name ≡ true
      → ((i : ℕ) → In i is → i ≢ j → (p.specs i).new_name ≢ (p.specs j).new_name)
      → Open j
          (p.specs j).old_name
          (p.specs j).new_name
          (common_scans dict file_exists work_directory is p)
  unfolding common_scans no_change_scan old_missing_scan
  common_scans-Open is p j waiting nd u differ there alone =
      let old = (p.specs j).old_name in
      let new = (p.specs j).new_name in
      rw (previous_scan-fresh is p waiting) (
        for_each-keep (Open j old new) no_change_step (no_change_step-Open j old new differ) is _ (
          for_each-keep (Open j old new) (old_missing_step file_exists work_directory)
            (old_missing_step-Open file_exists work_directory j old new there) is _
            (duplicate_scan-Open dict is p j nd u alone)))

  new_exists_scan-Open :
      (is : List ℕ) (p : Planning) (j : ℕ) (old new : Bytes)
      → Open j old new p
      → exists_here file_exists work_directory new ≡ false
      → ((i : ℕ) → In i is → (p.specs i).old_name ≢ new)
      → Open j old new (new_exists_scan dict file_exists work_directory is p)
  unfolding new_exists_scan
  new_exists_scan-Open is p j old new h gone far =
      let clear = old_names_loop dict new is empty p far (dict.get-empty new) in
      for_each-keep (Open j old new) (new_exists_step file_exists work_directory)
        (new_exists_step-Open file_exists work_directory j old new gone) is _
        (new_is_old_loop dict j old new is _ _ clear.0 (rw clear.1 h))

-- The plan that qcp makes for the first time leaves no sound copy out: a copy of the list is in `ok` if
-- its source exists, its destination does not, its two names differ, no other copy of the list has
-- its destination, and no file of the list is named as its destination. Before, every spec of the
-- list is unchecked, and each is listed once.
pub make_copy_plan_complete :
    (dict : Dictionary) (file_exists : Bytes → Bool) (work_directory : Bytes) (renames : List ℕ)
    (p : Planning) (j : ℕ)
    → ((i : ℕ) → In i renames → IsUnchecked p i)
    → NoDup renames
    → In j renames
    → exists_here file_exists work_directory (p.specs j).old_name ≡ true
    → exists_here file_exists work_directory (p.specs j).new_name ≡ false
    → (p.specs j).old_name ≢ (p.specs j).new_name
    → ((i : ℕ) → In i renames → i ≢ j → (p.specs i).new_name ≢ (p.specs j).new_name)
    → ((i : ℕ) → In i renames → (p.specs i).old_name ≢ (p.specs j).new_name)
    → In j (make_copy_plan dict file_exists work_directory renames p).ok
unfolding make_copy_plan
make_copy_plan_complete dict file_exists work_directory renames p j waiting nd k there gone differ
      alone far =
    let q = common_scans dict file_exists work_directory renames p in
    let names = common_scans-Narrows dict file_exists work_directory renames p in
    let opened =
      common_scans-Open dict file_exists work_directory renames p j waiting nd (waiting j k) differ
        there alone in
    let scanned =
      new_exists_scan-Open dict file_exists work_directory renames q j (p.specs j).old_name
        (p.specs j).new_name opened gone (λ i h e. far i h (sym (names.old_same i) ∙ e)) in
    apply_unchecked-adds renames (new_exists_scan dict file_exists work_directory renames q) j k
      scanned.0
