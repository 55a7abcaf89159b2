-- ===== src/Plan/Scans.antt =====
-- Each scan narrows the specs, and what it establishes of those that stay unchecked.
use renameutils.Common.{
  ℕ, Bool, true, List, ◌≡◌, ◌≢◌, inl, inr, refl, arith, ==_iff, Bytes, str_eq, str_eq_iff,
  Bool-cases,
}
use renameutils.Plan.{
  old_missing, no_change, is_unchecked, Planning, exists_here, previous_step, no_change_step,
  old_missing_step, previous_scan, no_change_scan, old_missing_scan,
}
use renameutils.Plan.Narrow.{
  In, IsUnchecked, Narrows, Narrows-refl, set_status-Narrows, Narrows-specs, for_each-each,
  for_each-Narrows,
}

previous_step-specs : (i : ℕ) (p : Planning) → (previous_step i p).specs ≡ p.specs
unfolding previous_step
previous_step-specs i p = ground arith

previous_step-Narrows : (i : ℕ) (p : Planning) → Narrows p (previous_step i p)
previous_step-Narrows i p = Narrows-specs (Narrows-refl p) (previous_step-specs i p)

pub previous_scan-Narrows : (is : List ℕ) (p : Planning) → Narrows p (previous_scan is p)
unfolding previous_scan
previous_scan-Narrows = for_each-Narrows previous_step previous_step-Narrows

no_change_step-Narrows : (i : ℕ) (p : Planning) → Narrows p (no_change_step i p)
unfolding no_change_step
no_change_step-Narrows i p =
    let n = set_status-Narrows p i no_change refl in
    let r = Narrows-refl p in
    elim (Bool-cases (is_unchecked (p.specs i).status)) [
      | inl yes' ↦ elim (Bool-cases (str_eq (p.specs i).old_name (p.specs i).new_name)) [
        | inl same ↦ Narrows-specs n (rw (yes', same))
        | inr differ ↦ Narrows-specs r (rw (yes', differ))
      ]
      | inr no' ↦ Narrows-specs r (rw no')
    ]

pub no_change_scan-Narrows : (is : List ℕ) (p : Planning) → Narrows p (no_change_scan is p)
unfolding no_change_scan
no_change_scan-Narrows = for_each-Narrows no_change_step no_change_step-Narrows

-- Kept by narrowing: what is said of a spec's names while it is unchecked.
abbrev pub WhileUnchecked : (Bytes → Bytes → Type 0) → ℕ → Planning → Type 0
WhileUnchecked P j p = IsUnchecked p j → P (p.specs j).old_name (p.specs j).new_name

pub WhileUnchecked-Narrows :
    (P : Bytes → Bytes → Type 0) {p q : Planning} (j : ℕ)
    → Narrows p q
    → WhileUnchecked P j p
    → WhileUnchecked P j q
WhileUnchecked-Narrows P j n h u = rw (n.old_same j, n.new_same j) (h (n.still j u))

no_change_step-differ :
    (i : ℕ) (p : Planning) → WhileUnchecked (λ o n. o ≢ n) i (no_change_step i p)
unfolding no_change_step
no_change_step-differ i p =
    ground (arith, str_eq_iff (p.specs i).old_name (p.specs i).new_name, ==_iff i i)

-- A spec that is unchecked after `no_change_scan` has two different names.
pub no_change_scan-differ :
    (is : List ℕ) (p : Planning) (j : ℕ)
    → In j is
    → WhileUnchecked (λ o n. o ≢ n) j (no_change_scan is p)
unfolding no_change_scan
no_change_scan-differ is p =
    for_each-each (WhileUnchecked (λ o n. o ≢ n)) no_change_step no_change_step-differ
      (λ i j q. WhileUnchecked-Narrows (λ o n. o ≢ n) j (no_change_step-Narrows i q)) is p

module _ (file_exists : Bytes → Bool) (work_directory : Bytes) where
  old_missing_step-Narrows :
      (i : ℕ) (p : Planning) → Narrows p (old_missing_step file_exists work_directory i p)
  unfolding old_missing_step
  old_missing_step-Narrows i p =
      let n = set_status-Narrows p i old_missing refl in
      let r = Narrows-refl p in
      elim (Bool-cases (is_unchecked (p.specs i).status)) [
        | inl yes' ↦
            elim (Bool-cases (exists_here file_exists work_directory (p.specs i).old_name)) [
              | inl there ↦ Narrows-specs r (rw (yes', there))
              | inr gone ↦ Narrows-specs n (rw (yes', gone))
            ]
        | inr no' ↦ Narrows-specs r (rw no')
      ]

  pub old_missing_scan-Narrows :
      (is : List ℕ) (p : Planning) → Narrows p (old_missing_scan file_exists work_directory is p)
  unfolding old_missing_scan
  old_missing_scan-Narrows =
      for_each-Narrows (old_missing_step file_exists work_directory) old_missing_step-Narrows

  abbrev pub OldExists : Bytes → Bytes → Type 0
  OldExists o n = exists_here file_exists work_directory o ≡ true

  old_missing_step-exists :
      (i : ℕ) (p : Planning)
      → WhileUnchecked OldExists i (old_missing_step file_exists work_directory i p)
  unfolding old_missing_step
  old_missing_step-exists i p = ground (arith, ==_iff i i)

  -- The old name of a spec that is unchecked after `old_missing_scan` exists.
  pub old_missing_scan-exists :
      (is : List ℕ) (p : Planning) (j : ℕ)
      → In j is
      → WhileUnchecked OldExists j (old_missing_scan file_exists work_directory is p)
  unfolding old_missing_scan
  old_missing_scan-exists is p =
      for_each-each (WhileUnchecked OldExists) (old_missing_step file_exists work_directory)
        old_missing_step-exists
        (λ i j q. WhileUnchecked-Narrows OldExists j (old_missing_step-Narrows i q)) is p
