-- ===== src/LList/Find.antt =====
-- `llist_remove`, `llist_contains` and the iterator.
use renameutils.Common.{
  ℕ, zero, suc, ◌<◌, ◌^◌, Bool, true, false, [], ◌∷◌, ◌++◌, none, some, ◌≡◌, ◌≢◌, inl, inr, refl,
  sym, ap, ◌∙◌, arith, ==_iff, ◌==◌, length, Bool-cases, if◌then◌else◌,
}
use renameutils.LList.{
  Ptr, LList, Memory, load, ptr_eq, find_entry, llist_remove, llist_remove_entry, llist_contains,
  iterator_next, iterator_remove,
}
use renameutils.LList.Segments.{
  Cells, data_of, At, head_or, Nodes, Nodes-split, Represents, head_or-append, last_or-append,
  Apart-split,
}
use renameutils.Apply as A
use renameutils.LList.Unlink.{remove_entry_lem}

-- The list without the first cell that has the datum.
abbrev erase : ℕ → Cells → Cells
erase d [] = []
erase d ((a, e) ∷ cs) = if e == d then cs else (a, e) ∷ erase d cs

abbrev pub has : ℕ → Cells → Bool
has d [] = false
has d ((a, e) ∷ cs) = if e == d then true else has d cs

abbrev first_with : ℕ → Cells → Ptr
first_with d [] = none
first_with d ((a, e) ∷ cs) = if e == d then some a else first_with d cs

find_entry_lem :
    (fuel : ℕ) (m : Memory) (prev : Ptr) (d : ℕ) (cs : Cells)
    → Nodes m.nodes prev none cs
    → length cs < fuel
    → find_entry fuel m (head_or cs none) d ≡ some (first_with d cs)
unfolding find_entry
find_entry_lem zero m prev d cs n enough = absurd (ground arith)
find_entry_lem (suc fuel) m prev d [] n enough = refl
find_entry_lem (suc fuel) m prev d ((a, e) ∷ cs) (at, n) enough = elim (Bool-cases (e == d)) [
  | inl yes' ↦ rw (at, yes') refl
  | inr no' ↦ rw (at, no') (find_entry_lem fuel m (some a) d cs n (ground arith))
]

-- Where the datum is found: before, behind, and what is left.
record Found (d : ℕ) (cs : Cells) : Type 0 where
  before : Cells
  address : ℕ
  behind : Cells
  whole : cs ≡ before ++ (address, d) ∷ behind
  first_is : first_with d cs ≡ some address
  left : data_of (before ++ behind) ≡ A.llist_remove (data_of cs) d

find-Found : (d : ℕ) (cs : Cells) → has d cs ≡ true → Found d cs
find-Found d [] h = absurd (ground (arith, h))
find-Found d ((a, e) ∷ cs) h = elim (Bool-cases (e == d)) [
  | inl yes' ↦ record {
    before = [];
    address = a;
    behind = cs;
    whole = let same : e ≡ d = ground (arith, ==_iff e d, yes') in rw same refl;
    first_is = rw yes' refl;
    left = rw yes' refl;
  }
  | inr no' ↦
      let r = find-Found d cs (rw no' at h) in
      record {
        before = (a, e) ∷ r.before;
        address = r.address;
        behind = r.behind;
        whole = ap (λ t. (a, e) ∷ t) r.whole;
        first_is = rw no' r.first_is;
        left = rw no' (ap (λ t. e ∷ t) r.left);
      }
]

find_none : (d : ℕ) (cs : Cells) → has d cs ≡ false → first_with d cs ≡ none
find_none d [] h = refl
find_none d ((a, e) ∷ cs) h = elim (Bool-cases (e == d)) [
  | inl yes' ↦ absurd (ground (arith, h, yes'))
  | inr no' ↦ rw no' (find_none d cs (rw no' at h))
]

left_none : (d : ℕ) (cs : Cells) → has d cs ≡ false → A.llist_remove (data_of cs) d ≡ data_of cs
left_none d [] h = refl
left_none d ((a, e) ∷ cs) h = elim (Bool-cases (e == d)) [
  | inl yes' ↦ absurd (ground (arith, h, yes'))
  | inr no' ↦ rw no' (ap (λ t. e ∷ t) (left_none d cs (rw no' at h)))
]

module _ (m : Memory) (l : LList) (cs : Cells) (v : Represents m l cs) where
  find_first : (d : ℕ) → find_entry (suc l.size) m l.first d ≡ some (first_with d cs)
  find_first d =
      ap (λ p. find_entry (suc l.size) m p d) v.first_is
      ∙ find_entry_lem (suc l.size) m none d cs v.nodes (let s = v.size_is in ground (arith, s))

  -- The search finds the datum where the list has it.
  pub llist_contains_lem : (d : ℕ) → llist_contains m l d ≡ some (has d cs)
  unfolding llist_contains
  llist_contains_lem d = elim (Bool-cases (has d cs)) [
    | inl yes' ↦ let r = find-Found d cs yes' in rw (find_first d, r.first_is, yes') refl
    | inr no' ↦ rw (find_first d, find_none d cs no', no') refl
  ]

  remove_found :
      (d a : ℕ) (m' : Memory) (l' : LList)
      → first_with d cs ≡ some a
      → llist_remove_entry m l (some a) ≡ some (m', l')
      → llist_remove m l d ≡ some (true, m', l')
  unfolding llist_remove
  remove_found d a m' l' at e = rw (find_first d, at, e) refl

  remove_none : (d : ℕ) → first_with d cs ≡ none → llist_remove m l d ≡ some (false, m, l)
  unfolding llist_remove
  remove_none d at = rw (find_first d, at) refl

-- `llist_remove` is the removal of a datum from a sequence: on a list of fewer than 2^32 entries it
-- reads and writes nodes of the list alone, tells whether the datum was there, and leaves a list of
-- the data without its first occurrence.
pub llist_remove_lem :
    (m : Memory) (l : LList) (cs : Cells) (d : ℕ)
    → Represents m l cs
    → length cs < 2 ^ 32
    → (m' : Memory) × (l' : LList) × (cs' : Cells) × (llist_remove m l d ≡ some (has d cs, m', l'))
      × Represents m' l' cs'
      × (data_of cs' ≡ A.llist_remove (data_of cs) d)
llist_remove_lem m l cs d v bound = elim (Bool-cases (has d cs)) [
  | inl yes' ↦
      let r = find-Found d cs yes' in
      let v' : Represents m l (r.before ++ (r.address, d) ∷ r.behind) = rw r.whole at v in
      let bound' : length (r.before ++ (r.address, d) ∷ r.behind) < 2 ^ 32 = rw r.whole at bound in
      let (m', l', e, w, freed) = remove_entry_lem m l r.address d r.before r.behind v' bound' in
      (
        m',
        l',
        r.before ++ r.behind,
        rw yes' (remove_found m l cs v d r.address m' l' r.first_is e),
        w,
        r.left,
      )
  | inr no' ↦
      (m, l, cs, rw no' (remove_none m l cs v d (find_none d cs no')), v, sym (left_none d cs no'))
]

-- The iterator at an entry.
iterator_next_lem :
    (m : Memory) (l : LList) (xs ys : Cells) (a d : ℕ)
    → Represents m l (xs ++ (a, d) ∷ ys)
    → iterator_next m (some a) ≡ some (d, head_or ys none)
unfolding iterator_next load
iterator_next_lem m l xs ys a d v =
    let (front, (at, back)) = Nodes-split m.nodes none none xs ((a, d) ∷ ys) v.nodes in rw at refl

first_differs :
    (xs : Cells) (a c : ℕ) (p : Ptr)
    → p ≡ head_or xs (some a)
    → (At c xs → ⊥)
    → c ≢ a
    → ptr_eq p (some c) ≡ false
first_differs [] a c p e off n = rw e (ground (arith, ==_iff a c))
first_differs ((b, f) ∷ xs) a c p e off n =
    let n' : b ≢ c = λ g. off (inl (sym g)) in rw e (ground (arith, ==_iff b c))

not_end : (xs : Cells) (a : ℕ) (p : Ptr) → p ≡ head_or xs (some a) → ptr_eq p none ≡ false
not_end [] a p e = rw e refl
not_end ((b, f) ∷ xs) a p e = rw e refl

-- The entry before the iterator is the one that goes.
iterator_remove_entry :
    (m : Memory) (l : LList) (xs ys : Cells) (a d : ℕ)
    → Represents m l (xs ++ (a, d) ∷ ys)
    → iterator_remove m l (head_or ys none) ≡ llist_remove_entry m l (some a)
unfolding iterator_remove
iterator_remove_entry m l xs [] a d v =
    let off = not_end xs a l.first (v.first_is ∙ head_or-append xs ((a, d) ∷ []) none) in
    rw off (ap (llist_remove_entry m l) (v.last_is ∙ last_or-append xs ((a, d) ∷ []) none))
iterator_remove_entry m l xs ((c, f) ∷ ys) a d v =
    let (front, (at, (at', back))) =
      Nodes-split m.nodes none none xs ((a, d) ∷ (c, f) ∷ ys) v.nodes in
    let (px, (off, py), dis) = Apart-split xs ((a, d) ∷ (c, f) ∷ ys) v.apart in
    let differ =
      first_differs xs a c l.first (v.first_is ∙ head_or-append xs ((a, d) ∷ (c, f) ∷ ys) none)
        (λ h. dis c h (inr (inl refl))) (λ e. off (inl (sym e))) in
    rw (differ, at') refl

-- An iterator in the middle of a list: `next` returns the next datum and moves on; `remove` then takes
-- that entry out of the list, and the iterator stands before the entry that follows.
pub iterator_remove-next :
    (m : Memory) (l : LList) (xs ys : Cells) (a d : ℕ)
    → Represents m l (xs ++ (a, d) ∷ ys)
    → length (xs ++ (a, d) ∷ ys) < 2 ^ 32
    → (m' : Memory) × (l' : LList) × (iterator_next m (head_or ((a, d) ∷ ys) none)
        ≡ some (d, head_or ys none))
      × (iterator_remove m l (head_or ys none) ≡ some (m', l'))
      × Represents m' l' (xs ++ ys)
iterator_remove-next m l xs ys a d v bound =
    let (m', l', e, w, freed) = remove_entry_lem m l a d xs ys v bound in
    (m', l', iterator_next_lem m l xs ys a d v, iterator_remove_entry m l xs ys a d v ∙ e, w)
