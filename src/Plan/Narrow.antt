-- ===== src/Plan/Narrow.antt =====
-- What every scan keeps: the names, and that no spec becomes unchecked again; and the two rules for
-- loops over the specs.
use renameutils.Common.{ℕ, true, false, List, [], ◌∷◌, ◌≡◌, ◌⊎◌, inl, inr, refl, ◌∙◌, arith, ==_iff}
use renameutils.Plan.{Status, is_unchecked, Planning, set_status, for_each}

-- The spec numbered `j` is in the list.
abbrev pub In : ℕ → List ℕ → Type 0
In j [] = ⊥
In j (i ∷ is) = (j ≡ i) ⊎ In j is

abbrev pub IsUnchecked : Planning → ℕ → Type 0
IsUnchecked p j = is_unchecked (p.specs j).status ≡ true

pub record Narrows (p p' : Planning) : Type 0 where
  pub old_same : (j : ℕ) → (p'.specs j).old_name ≡ (p.specs j).old_name
  pub new_same : (j : ℕ) → (p'.specs j).new_name ≡ (p.specs j).new_name
  pub still : (j : ℕ) → IsUnchecked p' j → IsUnchecked p j

pub Narrows-refl : (p : Planning) → Narrows p p
Narrows-refl p = record { old_same = λ j. refl; new_same = λ j. refl; still = λ j h. h }

pub Narrows-trans : {p q r : Planning} → Narrows p q → Narrows q r → Narrows p r
Narrows-trans a b = record {
  old_same = λ j. b.old_same j ∙ a.old_same j;
  new_same = λ j. b.new_same j ∙ a.new_same j;
  still = λ j h. a.still j (b.still j h);
}

-- A spec is given a status other than unchecked; the plan's lists do not matter.
pub set_status-Narrows :
    (p : Planning) (i : ℕ) (status : Status)
    → is_unchecked status ≡ false
    → Narrows p (set_status p i status)
set_status-Narrows p i status h = record {
  old_same = λ j. ground (arith, ==_iff j i);
  new_same = λ j. ground (arith, ==_iff j i);
  still = λ j. ground (arith, ==_iff j i);
}

-- `Narrows` reads the specs alone.
pub Narrows-specs : {p q r : Planning} → Narrows p q → r.specs ≡ q.specs → Narrows p r
Narrows-specs n e = record {
  old_same = λ j. rw e (n.old_same j);
  new_same = λ j. rw e (n.new_same j);
  still = λ j h. n.still j (rw e at h);
}

-- What each step establishes for its spec, and keeps for every other, holds of all in the list.
pub for_each-each {ℓ κ} :
    {S : Type ℓ} (P : ℕ → S → Type κ) (step : ℕ → S → S)
    → ((i : ℕ) (s : S) → P i (step i s))
    → ((i j : ℕ) (s : S) → P j s → P j (step i s))
    → (is : List ℕ) (s : S) (j : ℕ) → In j is
    → P j (for_each step is s)
for_each-each {S} P step make keep [] s j h = absurd h
for_each-each {S} P step make keep (i ∷ is) s j (inl e) = rw e (later is (step i s) (make i s))
  where
    later : (is : List ℕ) (s : S) → P i s → P i (for_each step is s)
    later [] s h = h
    later (k ∷ is) s h = later is (step k s) (keep k i s h)
for_each-each {S} P step make keep (i ∷ is) s j (inr h) =
    for_each-each P step make keep is (step i s) j h

pub for_each-keep {ℓ κ} :
    {S : Type ℓ} (P : S → Type κ) (step : ℕ → S → S)
    → ((i : ℕ) (s : S) → P s → P (step i s))
    → (is : List ℕ) (s : S) → P s
    → P (for_each step is s)
for_each-keep P step keep [] s h = h
for_each-keep P step keep (i ∷ is) s h = for_each-keep P step keep is (step i s) (keep i s h)

pub for_each-Narrows :
    (step : ℕ → Planning → Planning)
    → ((i : ℕ) (p : Planning) → Narrows p (step i p))
    → (is : List ℕ) (p : Planning) → Narrows p (for_each step is p)
for_each-Narrows step h is p =
    for_each-keep (λ q. Narrows p q) step (λ i q n. Narrows-trans n (h i q)) is p (Narrows-refl p)
