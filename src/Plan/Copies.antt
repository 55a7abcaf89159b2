-- ===== src/Plan/Copies.antt =====
-- That the plan of qcp overwrites nothing.
use renameutils.Common.{
  ℕ, Bool, true, false, List, [], ◌∷◌, ◌++◌, ◌≡◌, ◌⊎◌, inl, inr, refl, sym, ◌∙◌, arith, ==_iff,
  Bytes, Bool-cases, Option-cases,
}
use renameutils.Dictionary.{Dictionary}
use renameutils.Plan.{
  Planning, is_unchecked, new_exists, exists_here, for_each, common_scans, new_exists_step,
  new_is_old_step, old_names_step, new_exists_scan, apply_unchecked_step, apply_unchecked,
  make_copy_plan,
}
use renameutils.Plan.Narrow.{
  In, IsUnchecked, Narrows, Narrows-refl, Narrows-trans, Narrows-specs, set_status-Narrows,
  for_each-keep, for_each-each,
}
use renameutils.Plan.Scans.{WhileUnchecked, WhileUnchecked-Narrows}
use renameutils.Plan.Invariant.{Ready}
use renameutils.Plan.Fresh.{common_scans-ok, common_scans-Narrows, common_scans-Ready}

In-snoc : (j i : ℕ) (is : List ℕ) → In j (is ++ i ∷ []) → In j is ⊎ (j ≡ i)
In-snoc j i [] h = elim h [ inl e ↦ inr e | inr k ↦ absurd k ]
In-snoc j i (k ∷ is) (inl e) = inl (inl e)
In-snoc j i (k ∷ is) (inr h) = elim (In-snoc j i is h) [ inl a ↦ inl (inr a) | inr e ↦ inr e ]

apply_step-ok :
    (i : ℕ) (p : Planning) (j : ℕ)
    → In j (apply_unchecked_step i p).ok
    → In j p.ok ⊎ ((j ≡ i) × IsUnchecked p j)
unfolding apply_unchecked_step
apply_step-ok i p j h = elim (Bool-cases (is_unchecked (p.specs i).status)) [
  | inl on ↦
      let h' : In j (p.ok ++ i ∷ []) = rw on at h in
      elim (In-snoc j i p.ok h') [ inl k ↦ inl k | inr e ↦ inr (e, rw e on) ]
  | inr off ↦ inl (rw off at h)
]

apply_step-still :
    (i : ℕ) (p : Planning) (j : ℕ) → IsUnchecked (apply_unchecked_step i p) j → IsUnchecked p j
unfolding apply_unchecked_step
apply_step-still i p j u = ground (arith, ==_iff j i)

-- The `ok` that `apply_unchecked` leaves: what it found, and the unchecked specs of the list.
apply_unchecked-ok :
    (is : List ℕ) (p : Planning) (j : ℕ)
    → In j (apply_unchecked is p).ok
    → In j p.ok ⊎ (In j is × IsUnchecked p j)
unfolding apply_unchecked
apply_unchecked-ok [] p j h = inl h
apply_unchecked-ok (i ∷ is) p j h = elim (apply_unchecked-ok is (apply_unchecked_step i p) j h) [
  | inl before ↦ elim (apply_step-ok i p j before) [
    | inl early ↦ inl early
    | inr (e, u) ↦ inr (inl e, u)
  ]
  | inr (k, u) ↦ inr (inr k, apply_step-still i p j u)
]

module _ (file_exists : Bytes → Bool) (work_directory : Bytes) where
  abbrev NewMissing : Bytes → Bytes → Type 0
  NewMissing o n = exists_here file_exists work_directory n ≡ false

  new_exists_step-Narrows :
      (i : ℕ) (p : Planning) → Narrows p (new_exists_step file_exists work_directory i p)
  unfolding new_exists_step
  new_exists_step-Narrows i p =
      let n = set_status-Narrows p i new_exists refl in
      let r = Narrows-refl p in
      elim (Bool-cases (is_unchecked (p.specs i).status)) [
        | inl on ↦ elim (Bool-cases (exists_here file_exists work_directory (p.specs i).new_name)) [
          | inl there ↦ Narrows-specs n (rw (on, there))
          | inr gone ↦ Narrows-specs r (rw (on, gone))
        ]
        | inr off ↦ Narrows-specs r (rw off)
      ]

  new_exists_step-missing :
      (i : ℕ) (p : Planning)
      → WhileUnchecked NewMissing i (new_exists_step file_exists work_directory i p)
  unfolding new_exists_step
  new_exists_step-missing i p = ground (arith, ==_iff i i)

  new_exists_step-ok :
      (i : ℕ) (p : Planning) → (new_exists_step file_exists work_directory i p).ok ≡ p.ok
  unfolding new_exists_step
  new_exists_step-ok i p = ground arith

module _ (dict : Dictionary) where
  open dict use {Map, empty, get}

  abbrev Tame : Planning → Planning → Type 0
  Tame p q = Narrows p q × (q.ok ≡ p.ok)

  old_names_step-same : (i : ℕ) (s : Map × Planning) → (old_names_step dict i s).1 ≡ s.1
  unfolding old_names_step
  old_names_step-same i (m, p) = elim (Bool-cases (is_unchecked (p.specs i).status)) [
    | inl on ↦ rw on refl
    | inr off ↦ rw off refl
  ]

  new_is_old_step-Tame : (i : ℕ) (s : Map × Planning) → Tame s.1 (new_is_old_step dict i s).1
  unfolding new_is_old_step
  new_is_old_step-Tame i (m, p) = elim (Bool-cases (is_unchecked (p.specs i).status)) [
    | inr off ↦ rw off (Narrows-refl p, refl)
    | inl on ↦ elim (Option-cases (get m (p.specs i).new_name)) [
      | inl new ↦ rw (on, new) (Narrows-refl p, refl)
      | inr (k, old) ↦
          rw (on, old) (Narrows-specs (set_status-Narrows p i new_exists refl) refl, refl)
    ]
  ]

module _ (dict : Dictionary) (file_exists : Bytes → Bool) (work_directory : Bytes) where
  open dict use {Map, empty}

  new_exists_scan-Tame :
      (is : List ℕ) (p : Planning)
      → Tame dict p (new_exists_scan dict file_exists work_directory is p)
  unfolding new_exists_scan
  new_exists_scan-Tame is p =
      let tame = λ (q : Planning). Tame dict p q in
      let m = (for_each (old_names_step dict) is (empty, p)).0 in
      for_each-keep tame (new_exists_step file_exists work_directory)
        (λ i q (n, e). (
          Narrows-trans n (new_exists_step-Narrows file_exists work_directory i q),
          new_exists_step-ok file_exists work_directory i q ∙ e,
        ))
        is _
        (for_each-keep (λ (s : Map × Planning). tame s.1) (new_is_old_step dict)
          (λ i s (n, e). (
            Narrows-trans n (new_is_old_step-Tame dict i s).0,
            (new_is_old_step-Tame dict i s).1 ∙ e,
          ))
          is _
          (for_each-keep (λ (s : Map × Planning). tame s.1) (old_names_step dict)
            (λ i s t. rw (old_names_step-same dict i s) t) is (empty, p) (Narrows-refl p, refl)))

  new_exists_scan-missing :
      (is : List ℕ) (p : Planning) (j : ℕ)
      → In j is
      → WhileUnchecked
          (NewMissing file_exists work_directory)
          j
          (new_exists_scan dict file_exists work_directory is p)
  unfolding new_exists_scan
  new_exists_scan-missing is p =
      let missing = NewMissing file_exists work_directory in
      for_each-each (WhileUnchecked missing) (new_exists_step file_exists work_directory)
        (new_exists_step-missing file_exists work_directory)
        (λ i j q.
          WhileUnchecked-Narrows missing j (new_exists_step-Narrows file_exists work_directory i q))
        is _

-- The plan that qcp makes for the first time overwrites nothing, in whatever order it is done: each
-- copy of `ok` is one of those asked for, its source exists, its destination does not, and no two of
-- them have one destination. Before, `ok` is empty and every spec of the list is unchecked; their old
-- names differ.
pub make_copy_plan_lem :
    (dict : Dictionary) (file_exists : Bytes → Bool) (work_directory : Bytes) (renames : List ℕ)
    (p : Planning)
    → p.ok ≡ []
    → ((j : ℕ) → In j renames → IsUnchecked p j)
    → ((j k : ℕ)
        → In j renames
        → In k renames
        → (p.specs j).old_name ≡ (p.specs k).old_name
        → j ≡ k)
    → ((j : ℕ)
        → In j (make_copy_plan dict file_exists work_directory renames p).ok
        → In j renames
          × (exists_here file_exists work_directory (p.specs j).old_name ≡ true)
          × (exists_here file_exists work_directory (p.specs j).new_name ≡ false))
      × ((j k : ℕ)
          → In j (make_copy_plan dict file_exists work_directory renames p).ok
          → In k (make_copy_plan dict file_exists work_directory renames p).ok
          → (p.specs j).new_name ≡ (p.specs k).new_name
          → j ≡ k)
unfolding make_copy_plan
make_copy_plan_lem dict file_exists work_directory renames p fresh waiting distinct = (
  λ j h. let (k, u) = of_ok j h in (k, source j k u, target j k u),
  λ j k hj hk e.
      let (kj, uj) = of_ok j hj in
      let (kk, uk) = of_ok k hk in
      ready.new_distinct j k kj kk (n.still j uj) (n.still k uk)
        (nq.new_same j ∙ e ∙ sym (nq.new_same k)),
)
  where
    q : Planning
    q = common_scans dict file_exists work_directory renames p

    r : Planning
    r = new_exists_scan dict file_exists work_directory renames q

    nq : Narrows p q
    nq = common_scans-Narrows dict file_exists work_directory renames p

    n : Narrows q r
    n = (new_exists_scan-Tame dict file_exists work_directory renames q).0

    none_before : r.ok ≡ []
    none_before =
        (new_exists_scan-Tame dict file_exists work_directory renames q).1
        ∙ common_scans-ok dict file_exists work_directory renames p waiting
        ∙ fresh

    ready : Ready (exists_here file_exists work_directory) renames q
    ready = common_scans-Ready dict file_exists work_directory renames p distinct

    of_ok : (j : ℕ) → In j (apply_unchecked renames r).ok → In j renames × IsUnchecked r j
    of_ok j h = elim (apply_unchecked-ok renames r j h) [
      | inl before ↦ absurd (rw none_before at before)
      | inr late ↦ late
    ]

    source :
        (j : ℕ)
        → In j renames
        → IsUnchecked r j
        → exists_here file_exists work_directory (p.specs j).old_name ≡ true
    source j k u = rw (nq.old_same j) at (ready.old_there j k (n.still j u))

    target :
        (j : ℕ)
        → In j renames
        → IsUnchecked r j
        → exists_here file_exists work_directory (p.specs j).new_name ≡ false
    target j k u =
        rw (n.new_same j, nq.new_same j) at
          (new_exists_scan-missing dict file_exists work_directory renames q j k u)
