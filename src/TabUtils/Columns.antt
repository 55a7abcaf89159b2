-- ===== src/TabUtils/Columns.antt =====
-- What src/common/tab-utils.c writes leads to the column asked for, and its index is that column's.
use native.Mathlib.Nat.{mod-lt}
use renameutils.Common.{
  ℕ, zero, suc, ◌+◌, ◌-◌, ◌≤◌, ◌<◌, true, false, [], ◌∷◌, ◌++◌, ◌≡◌, refl, ◌∙◌, arith, inl, inr,
  ltb, leb, ◌==◌, Bytes, length, replicate, take, Bool-cases,
}
use renameutils.TabUtils.{
  space, next_stop, output_tabs, tab_to, column_after, tab_len_from, tab_len, tab_index_from,
  tab_index,
}

pub tab_len_from-append :
    (tabsize len : ℕ) (s t : Bytes)
    → tab_len_from tabsize len (s ++ t) ≡ tab_len_from tabsize (tab_len_from tabsize len s) t
unfolding tab_len_from
tab_len_from-append tabsize len [] t = refl
tab_len_from-append tabsize len (c ∷ s) t =
    tab_len_from-append tabsize (column_after tabsize len c) s t

tab_len_from-spaces : (tabsize len n : ℕ) → tab_len_from tabsize len (replicate n space) ≡ len + n
unfolding tab_len_from
tab_len_from-spaces tabsize len zero = omega arith
tab_len_from-spaces tabsize len (suc n) = omega (arith, tab_len_from-spaces tabsize (suc len) n)

pub next_stop-later : (from tabsize : ℕ) → 0 < tabsize → from < next_stop from tabsize
next_stop-later from tabsize h = let r = mod-lt from h in omega arith

-- The tab characters end at the column that the loop says, no later than `to`, and the next stop is
-- after `to`.
output_tabs_lem :
    (fuel from to tabsize : ℕ)
    → 0 < tabsize
    → from ≤ to
    → to < fuel + from
    → (tab_len_from tabsize from (output_tabs fuel from to tabsize).0
        ≡ (output_tabs fuel from to tabsize).1)
      × ((output_tabs fuel from to tabsize).1 ≤ to)
      × (to < next_stop (output_tabs fuel from to tabsize).1 tabsize)
unfolding output_tabs tab_len_from
output_tabs_lem zero from to tabsize h le enough = absurd (ground arith)
output_tabs_lem (suc fuel) from to tabsize h le enough =
    let later = next_stop-later from tabsize h in
    elim (Bool-cases (leb (next_stop from tabsize) to)) [
      | inl more ↦
          rw more (
            output_tabs_lem fuel (next_stop from tabsize) to tabsize h (ground arith)
              (ground arith))
      | inr stop ↦ rw stop (refl, le, ground arith)
    ]

-- From column `from`, the output of `tab_to` leads to column `to`, where tabs are in use and `from`
-- is not behind `to`.
pub tab_len-tab_to :
    (from to tabsize : ℕ)
    → 0 < tabsize
    → from ≤ to
    → tab_len_from tabsize from (tab_to from to tabsize) ≡ to
unfolding tab_to
tab_len-tab_to from to tabsize h le =
    let (reached, before, last) = output_tabs_lem (suc to) from to tabsize h le (ground arith) in
    let off : (tabsize == 0) ≡ false = ground arith in
    rw
      (
        off,
        tab_len_from-append tabsize from (output_tabs (suc to) from to tabsize).0
            (replicate (to - (output_tabs (suc to) from to tabsize).1) space),
        reached,
        tab_len_from-spaces tabsize (output_tabs (suc to) from to tabsize).1
            (to - (output_tabs (suc to) from to tabsize).1),
      )
      (ground arith)

column_after-later : (tabsize c b : ℕ) → 0 < tabsize → c < column_after tabsize c b
column_after-later tabsize c b h = let l = next_stop-later c tabsize h in ground arith

index_past :
    (tabsize pos c p : ℕ) (s : Bytes) → pos < c → tab_index_from tabsize pos c (suc p) s ≡ p
unfolding tab_index_from
index_past tabsize pos c p [] h = ground arith
index_past tabsize pos c p (b ∷ s) h = ground arith

index_here :
    (tabsize pos c p b : ℕ) (s : Bytes) → c ≡ pos → tab_index_from tabsize pos c p (b ∷ s) ≡ p
unfolding tab_index_from
index_here tabsize pos c p b s h = ground arith

index_on :
    (tabsize pos c p b : ℕ) (s : Bytes)
    → c < pos
    → tab_index_from tabsize pos c p (b ∷ s)
      ≡ tab_index_from tabsize pos (column_after tabsize c b) (suc p) s
unfolding tab_index_from
index_on tabsize pos c p b s h =
    let e : ltb c pos ≡ true = ground arith in rw (tab_index_from, e) refl

-- `k` characters of `s` end at column `pos` or before it, and one more ends after it.
abbrev Reaches : ℕ → ℕ → ℕ → Bytes → ℕ → Type 0
Reaches tabsize pos c s k =
    (tab_len_from tabsize c (take k s) ≤ pos)
    × (k < length s → pos < tab_len_from tabsize c (take (suc k) s))

tab_index_from-Reaches :
    (tabsize pos c p : ℕ) (s : Bytes)
    → 0 < tabsize
    → c ≤ pos
    → (k : ℕ) × (tab_index_from tabsize pos c p s ≡ p + k) × Reaches tabsize pos c s k
unfolding tab_index_from tab_len_from
tab_index_from-Reaches tabsize pos c p [] h le =
    (0, ground arith, (ground arith, λ l. absurd (ground arith)))
tab_index_from-Reaches tabsize pos c p (b ∷ s) h le =
    let later = column_after-later tabsize c b h in
    elim (Bool-cases (ltb c pos)) [
      | inl on ↦ elim (Bool-cases (ltb pos (column_after tabsize c b))) [
        | inl over ↦ (
          0,
          index_on tabsize pos c p b s (ground arith)
              ∙ index_past tabsize pos (column_after tabsize c b) p s (ground arith)
              ∙ (ground arith),
          (le, λ l. ground arith),
        )
        | inr under ↦
            let (k, e, (r, t)) =
              tab_index_from-Reaches tabsize pos (column_after tabsize c b) (suc p) s h
                (ground arith) in
            (
              suc k,
              index_on tabsize pos c p b s (ground arith) ∙ e ∙ (omega arith),
              (r, λ l. t (ground arith)),
            )
      ]
      | inr off ↦ (
        0,
        index_here tabsize pos c p b s (ground arith) ∙ (omega arith),
        (le, λ l. ground arith),
      )
    ]

-- Where tabs are in use, the characters before the index that `tab_index` finds for a column end at
-- that column or before it; and if there is a character at the index, it ends after the column.
pub tab_index_lem :
    (s : Bytes) (pos tabsize : ℕ)
    → 0 < tabsize
    → (tab_len (take (tab_index s pos tabsize) s) tabsize ≤ pos)
      × (tab_index s pos tabsize < length s
          → pos < tab_len (take (suc (tab_index s pos tabsize)) s) tabsize)
unfolding tab_index tab_len
tab_index_lem s pos tabsize h =
    let off : (tabsize == 0) ≡ false = ground arith in
    let (k, e, r) = tab_index_from-Reaches tabsize pos 0 0 s h (ground arith) in
    let e' : tab_index_from tabsize pos 0 0 s ≡ k = e ∙ (omega arith) in rw (off, e') r
