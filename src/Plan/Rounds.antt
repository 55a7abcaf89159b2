-- ===== src/Plan/Rounds.antt =====
-- The rounds of `topologic_sort`: what each makes of its list, and that the fuel is enough.
use mathlib.Core.Bool.{true≢false}
use renameutils.Common.{
  ℕ, zero, suc, Bool, true, false, List, [], ◌∷◌, none, some, ◌≡◌, inl, inr, refl, ap, arith,
  length, Bool-cases, Option-cases, ◌<◌, ◌≤◌, Bytes,
}
use renameutils.Dictionary.{Dictionary}
use renameutils.Plan.{Planning}
use renameutils.Plan.Narrow.{In}
use renameutils.Plan.Sort.{Sorting, take_free, sort_round, sort_rounds, topologic_sort}

module _ (dict : Dictionary) where
  open dict use {get}

  pub round_stay :
      (i : ℕ) (is : List ℕ) (s : Sorting dict)
      → get s.available (s.planning.specs i).new_name ≡ none
      → sort_round dict (i ∷ is) s
        ≡ (i ∷ (sort_round dict is s).0, (sort_round dict is s).1, (sort_round dict is s).2)
  unfolding sort_round
  round_stay i is s e = rw (sort_round, e) refl

  pub round_take :
      (i : ℕ) (is : List ℕ) (s : Sorting dict) (depend : ℕ)
      → get s.available (s.planning.specs i).new_name ≡ some depend
      → sort_round dict (i ∷ is) s ≡ (
        (sort_round dict is (take_free dict s i depend)).0,
        true,
        (sort_round dict is (take_free dict s i depend)).2,
      )
  unfolding sort_round
  round_take i is s depend e = rw (sort_round, e) refl

  pub rounds_more :
      (fuel : ℕ) (is : List ℕ) (s : Sorting dict)
      → (sort_round dict is s).1 ≡ true
      → sort_rounds dict (suc fuel) is s
        ≡ sort_rounds dict fuel (sort_round dict is s).0 (sort_round dict is s).2
  unfolding sort_rounds
  rounds_more fuel is s e = rw (sort_rounds, e) refl

  pub rounds_done :
      (fuel : ℕ) (is : List ℕ) (s : Sorting dict)
      → (sort_round dict is s).1 ≡ false
      → sort_rounds dict (suc fuel) is s
        ≡ ((sort_round dict is s).0, (sort_round dict is s).2, true)
  unfolding sort_rounds
  rounds_done fuel is s e = rw (sort_rounds, e) refl

  -- No spec of the list has a destination that is available.
  abbrev pub Stuck : List ℕ → Sorting dict → Type 0
  Stuck is s = (j : ℕ) → In j is → get s.available (s.planning.specs j).new_name ≡ none

  -- A round that changes nothing takes nothing, and finds the list stuck.
  round_idle :
      (is : List ℕ) (s : Sorting dict)
      → (sort_round dict is s).1 ≡ false
      → ((sort_round dict is s).0 ≡ is) × ((sort_round dict is s).2 ≡ s) × Stuck is s
  unfolding sort_round
  round_idle [] s e = (refl, refl, λ j h. absurd h)
  round_idle (i ∷ is) s e = elim (Option-cases (get s.available (s.planning.specs i).new_name)) [
    | inl none' ↦
        let (a, b, c) = round_idle is s (rw (round_stay i is s none') at e) in
        rw (round_stay i is s none')
          (ap (λ t. i ∷ t) a, b, λ j h. elim h [ inl at ↦ rw at none' | inr k ↦ c j k ])
    | inr (depend, found) ↦ absurd (true≢false (rw (round_take i is s depend found) at e))
  ]

  round_shorter :
      (is : List ℕ) (s : Sorting dict)
      → (length (sort_round dict is s).0 ≤ length is)
        × ((sort_round dict is s).1 ≡ true → length (sort_round dict is s).0 < length is)
  unfolding sort_round
  round_shorter [] s = ground arith
  round_shorter (i ∷ is) s = elim (Option-cases (get s.available (s.planning.specs i).new_name)) [
    | inl none' ↦ let r = round_shorter is s in rw (round_stay i is s none') (ground (arith, r))
    | inr (depend, found) ↦
        let r = round_shorter is (take_free dict s i depend) in
        rw (round_take i is s depend found) (ground (arith, r))
  ]

  sort_rounds-Stuck :
      (fuel : ℕ) (is : List ℕ) (s : Sorting dict)
      → length is < fuel
      → ((sort_rounds dict fuel is s).2 ≡ true)
        × Stuck (sort_rounds dict fuel is s).0 (sort_rounds dict fuel is s).1
  unfolding sort_rounds
  sort_rounds-Stuck zero is s h = absurd (ground arith)
  sort_rounds-Stuck (suc fuel) is s h = elim (Bool-cases (sort_round dict is s).1) [
    | inl more ↦
        rw (rounds_more fuel is s more)
          (sort_rounds-Stuck fuel _ _ (let r = (round_shorter is s).1 more in ground arith))
    | inr done ↦
        let (a, b, c) = round_idle is s done in rw (rounds_done fuel is s done, a, b) (refl, c)
  ]

-- The rounds of `topologic_sort` end by their own test, `changed`, before the fuel is used up; and no
-- spec that is left over then has a new name among the old names that are available.
pub topologic_sort-Stuck :
    (dict : Dictionary) (file_exists : Bytes → Bool) (work_directory : Bytes) (renames : List ℕ)
    (p : Planning)
    → ((topologic_sort dict file_exists work_directory renames p).2 ≡ true)
      × Stuck dict
          (topologic_sort dict file_exists work_directory renames p).0
          (topologic_sort dict file_exists work_directory renames p).1
unfolding topologic_sort
topologic_sort-Stuck dict file_exists work_directory renames p =
    sort_rounds-Stuck dict _ _ _ (ground arith)
