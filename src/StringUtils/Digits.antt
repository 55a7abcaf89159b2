-- ===== src/StringUtils/Digits.antt =====
-- `uintlen` is the number of decimal digits.
use native.Mathlib.Nat.{pow-suc}
use renameutils.Common.{
  ℕ, zero, suc, ◌+◌, ◌-◌, ◌/◌, ◌^◌, ◌<◌, ◌≤◌, ◌≡◌, ◌⊎◌, inl, inr, refl, arith, leb, Bool-cases,
}
use renameutils.StringUtils.{count_digits, uintlen}

-- `k` more digits are counted.
count_digits_lem :
    (fuel value len : ℕ)
    → value < 10 ^ fuel
    → (k : ℕ) × (count_digits fuel value len ≡ len + k)
      × (value < 10 ^ suc k)
      × ((k ≡ 0) ⊎ (10 ^ k ≤ value))
unfolding count_digits
count_digits_lem zero value len h = (0, omega arith, omega arith, inl refl)
count_digits_lem (suc fuel) value len h = elim (Bool-cases (leb 10 value)) [
  | inl more ↦
      let (k, e, above, below) =
        count_digits_lem fuel (value / 10) (len + 1) (omega (arith, pow-suc 10 fuel)) in
      (suc k, ground arith, omega (arith, pow-suc 10 (suc k)), grind (arith, pow-suc 10 k))
  | inr done ↦ (0, ground arith, ground arith, inl refl)
]

-- A 64-bit number has `uintlen` decimal digits: it is below that power of ten, and at least the
-- power before it unless it has a single digit. The loop ends within its twenty rounds.
pub uintlen_lem :
    (value : ℕ)
    → value < 2 ^ 64
    → (value < 10 ^ uintlen value) × ((uintlen value ≡ 1) ⊎ (10 ^ (uintlen value - 1) ≤ value))
unfolding uintlen
uintlen_lem value h =
    let (k, e, above, below) = count_digits_lem 20 value 1 (omega arith) in
    let size : count_digits 20 value 1 ≡ suc k = omega arith in
    let exponent : suc k - 1 ≡ k = omega arith in rw (size, exponent) (above, ground arith)
