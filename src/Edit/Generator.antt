-- ===== src/Edit/Generator.antt =====
-- `option_generator` of the edit formats, called until it returns NULL, as readline does.
use renameutils.Common.{
  ℕ, zero, suc, ◌<◌, List, [], ◌∷◌, Option, none, some, ◌≡◌, refl, arith, inl, inr, if◌then◌else◌,
  Bool-cases, Bytes, length, drop, drop-suc_lem,
}
use renameutils.StringUtils.{starts_with}
use renameutils.Edit.{find_option, option_generator}

abbrev cons_option : Bytes → Option (List Bytes) → Option (List Bytes)
cons_option name none = none
cons_option name (some names) = some (name ∷ names)

-- The first call has `state` 0 and the later ones do not; `c` is what earlier completions left.
-- `none` where NULL is not returned within `fuel` calls.
unfoldable pub completions : ℕ → List Bytes → ℕ → Bytes → ℕ → Option (List Bytes)
completions zero option_array c text state = none
completions (suc fuel) option_array c text state =
    let (found', c') = option_generator option_array c text state in
    let rest = completions fuel option_array c' text (suc state) in
    elim found' [ none ↦ some [] | some name ↦ cons_option name rest ]

abbrev pub filter : List Bytes → Bytes → List Bytes
filter [] text = []
filter (name ∷ names) text =
    if starts_with name text then name ∷ filter names text else filter names text

module _ (option_array : List Bytes) (text : Bytes) where
  -- What the call that finds `r` and those behind it give.
  abbrev after_call : ℕ → ℕ → Option Bytes × ℕ → Option (List Bytes)
  after_call fuel state r = elim r.0 [
    | none ↦ some []
    | some name ↦ cons_option name (completions fuel option_array r.1 text (suc state))
  ]

  -- The call that searches `names`, which stand from `c` on.
  after_call_lem :
      (fuel c state : ℕ) (names : List Bytes)
      → ((k : ℕ) (others : List Bytes)
          → drop k option_array ≡ others
          → length others < fuel
          → completions fuel option_array k text (suc state) ≡ some (filter others text))
      → drop c option_array ≡ names
      → length names < suc fuel
      → after_call fuel state (find_option names c text) ≡ some (filter names text)
  unfolding find_option
  after_call_lem fuel c state [] later e f = refl
  after_call_lem fuel c state (name ∷ names) later e f =
      let behind = drop-suc_lem option_array c e in
      elim (Bool-cases (starts_with name text)) [
        | inl yes' ↦ rw (find_option, yes', later (suc c) names behind (ground arith)) refl
        | inr no' ↦
            rw (find_option, no')
              (after_call_lem fuel (suc c) state names later behind (ground arith))
      ]

  later_calls :
      (fuel c state : ℕ) (names : List Bytes)
      → drop c option_array ≡ names
      → length names < fuel
      → completions fuel option_array c text (suc state) ≡ some (filter names text)
  unfolding completions option_generator
  later_calls zero c state names e f = absurd (ground arith)
  later_calls (suc fuel) c state names e f = rw (← e) (
      after_call_lem fuel c (suc state) (drop c option_array)
        (λ k others. later_calls fuel k (suc state) others) refl (rw e f))

-- The calls of `option_generator` until it returns NULL, the first with `state` 0 and the later ones
-- with other states, give the option names that start with the text, each once and in their order,
-- wherever an earlier completion has left `c`; one call more than there are options is enough.
pub completions_lem :
    (fuel c : ℕ) (option_array : List Bytes) (text : Bytes)
    → length option_array < fuel
    → completions fuel option_array c text 0 ≡ some (filter option_array text)
unfolding completions option_generator
completions_lem zero c option_array text f = absurd (ground arith)
completions_lem (suc fuel) c option_array text f =
    after_call_lem option_array text fuel 0 0 option_array
      (λ k others. later_calls option_array text fuel k 0 others) refl f
