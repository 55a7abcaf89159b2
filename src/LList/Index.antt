-- ===== src/LList/Index.antt =====
-- The entry at an index, which is looked for from the nearer end.
use renameutils.Common.{
  ℕ, zero, suc, ◌+◌, ◌-◌, ◌/◌, ◌<◌, ◌≤◌, ◌^◌, true, false, List, [], ◌∷◌, ◌++◌, Option, none, some,
  ◌≡◌, inl, inr, refl, sym, ap, ◌∙◌, arith, length, length-append, append_assoc, Bool-cases,
  Option-cases, ltb, same_some,
}
use renameutils.LList.{
  Ptr, LNode, LList, Memory, load, walk_next, walk_previous, llist_get_entry, llist_get,
  llist_remove_at, llist_remove_entry,
}
use renameutils.LList.Segments.{
  Cells, data_of, head_or, last_or, Nodes, Nodes-split, Represents, last_or-append,
}
use renameutils.LList.Unlink.{remove_entry_lem}

-- An element of a sequence, and the sequence without it.
abbrev pub get_elem? : List ℕ → ℕ → Option ℕ
get_elem? [] i = none
get_elem? (d ∷ ds) zero = some d
get_elem? (d ∷ ds) (suc i) = get_elem? ds i

abbrev pub remove_elem : List ℕ → ℕ → List ℕ
remove_elem [] i = []
remove_elem (d ∷ ds) zero = ds
remove_elem (d ∷ ds) (suc i) = d ∷ remove_elem ds i

-- The cell at an index, with those around it.
pub record Cell (cs : Cells) (i : ℕ) : Type 0 where
  pub before : Cells
  pub address : ℕ
  pub content : ℕ
  pub behind : Cells
  pub whole : cs ≡ before ++ (address, content) ∷ behind
  pub index_is : length before ≡ i
  pub elem_is : get_elem? (data_of cs) i ≡ some content
  pub left : data_of (before ++ behind) ≡ remove_elem (data_of cs) i

pub Cell-at : (cs : Cells) (i : ℕ) → i < length cs → Cell cs i
Cell-at [] i h = absurd (ground arith)
Cell-at ((a, d) ∷ cs) zero h = record {
  before = [];
  address = a;
  content = d;
  behind = cs;
  whole = refl;
  index_is = refl;
  elem_is = refl;
  left = refl;
}
Cell-at ((a, d) ∷ cs) (suc i) h =
    let c = Cell-at cs i (ground arith) in
    record {
      before = (a, d) ∷ c.before;
      address = c.address;
      content = c.content;
      behind = c.behind;
      whole = ap (λ t. (a, d) ∷ t) c.whole;
      index_is = ap suc c.index_is;
      elem_is = c.elem_is;
      left = ap (λ t. d ∷ t) c.left;
    }

pub elem_none : (cs : Cells) (i : ℕ) → length cs ≤ i → get_elem? (data_of cs) i ≡ none
elem_none [] i h = refl
elem_none ((a, d) ∷ cs) zero h = absurd (ground arith)
elem_none ((a, d) ∷ cs) (suc i) h = elem_none cs i (ground arith)

remove_none : (cs : Cells) (i : ℕ) → length cs ≤ i → remove_elem (data_of cs) i ≡ data_of cs
remove_none [] i h = refl
remove_none ((a, d) ∷ cs) zero h = absurd (ground arith)
remove_none ((a, d) ∷ cs) (suc i) h = ap (λ t. d ∷ t) (remove_none cs i (ground arith))

walk_next_lem :
    (m : Memory) (prev stop : Ptr) (xs ys : Cells)
    → Nodes m.nodes prev stop (xs ++ ys)
    → walk_next (length xs) m (head_or (xs ++ ys) stop) ≡ some (head_or ys stop)
unfolding walk_next load
walk_next_lem m prev stop [] ys n = refl
walk_next_lem m prev stop ((a, d) ∷ xs) ys (at, n) = rw at (walk_next_lem m (some a) stop xs ys n)

walk_previous_step :
    (k : ℕ) (m : Memory) (p : Ptr) (n : LNode)
    → load m p ≡ some n
    → walk_previous (suc k) m p ≡ walk_previous k m n.previous
unfolding walk_previous
walk_previous_step k m p n e = rw e refl

walk_previous_fault :
    (k : ℕ) (m : Memory) (p : Ptr) → load m p ≡ none → walk_previous (suc k) m p ≡ none
unfolding walk_previous
walk_previous_fault k m p e = rw e refl

-- A step more at the end of the walk.
walk_previous_more :
    (k : ℕ) (m : Memory) (p q : Ptr) (n : LNode)
    → walk_previous k m p ≡ some q
    → load m q ≡ some n
    → walk_previous (suc k) m p ≡ some n.previous
unfolding walk_previous
walk_previous_more zero m p q n w at =
    walk_previous_step zero m p n (ap (load m) (same_some w) ∙ at)
walk_previous_more (suc k) m p q n w at = elim (Option-cases (load m p)) [
  | inl e ↦ let bad = sym (walk_previous_fault k m p e) ∙ w in absurd (ground (arith, bad))
  | inr (n', e) ↦
      let w' = sym (walk_previous_step k m p n' e) ∙ w in
      walk_previous_step (suc k) m p n' e ∙ walk_previous_more k m n'.previous q n w' at
]

-- From the last cell of `xs ++ ys` back to that of `xs`.
walk_previous_lem :
    (m : Memory) (prev stop : Ptr) (xs ys : Cells)
    → Nodes m.nodes prev stop (xs ++ ys)
    → walk_previous (length ys) m (last_or (xs ++ ys) prev) ≡ some (last_or xs prev)
unfolding walk_previous load
walk_previous_lem m prev stop xs [] n = ap some (last_or-append xs [] prev)
walk_previous_lem m prev stop xs ((a, d) ∷ ys) n =
    let n' : Nodes m.nodes prev stop ((xs ++ (a, d) ∷ []) ++ ys) =
      rw (append_assoc xs ((a, d) ∷ []) ys) n in
    let ih = walk_previous_lem m prev stop (xs ++ (a, d) ∷ []) ys n' in
    let (front, (at, back)) = Nodes-split m.nodes prev stop xs ((a, d) ∷ ys) n in
    let same : last_or ((xs ++ (a, d) ∷ []) ++ ys) prev ≡ last_or (xs ++ (a, d) ∷ ys) prev =
      ap (λ t. last_or t prev) (append_assoc xs ((a, d) ∷ []) ys) in
    let there : last_or (xs ++ (a, d) ∷ []) prev ≡ some a = last_or-append xs ((a, d) ∷ []) prev in
    walk_previous_more (length ys) m (last_or (xs ++ (a, d) ∷ ys) prev) (some a)
      (record { datum = d; next = head_or ys stop; previous = last_or xs prev })
      (ap (walk_previous (length ys) m) (sym same) ∙ ih ∙ ap some there) at

module _ (m : Memory) (l : LList) (cs : Cells) (v : Represents m l cs) where
  -- From either end, the walk ends at the cell.
  pub get_entry_lem : (i : ℕ) (c : Cell cs i) → llist_get_entry m l i ≡ some (some c.address)
  unfolding llist_get_entry
  get_entry_lem i c =
      let cell : ℕ × ℕ = (c.address, c.content) in
      let s : l.size ≡ suc (length c.before + length c.behind) =
        v.size_is ∙ ap length c.whole ∙ length-append c.before (cell ∷ c.behind) ∙ omega arith in
      let n : Nodes m.nodes none none (c.before ++ cell ∷ c.behind) = rw c.whole at v.nodes in
      let forward : walk_next i m l.first ≡ some (some c.address) =
        ap (λ k. walk_next k m l.first) (sym c.index_is)
        ∙ ap (walk_next (length c.before) m) (v.first_is ∙ ap (λ t. head_or t none) c.whole)
        ∙ walk_next_lem m none none c.before (cell ∷ c.behind) n in
      let n' : Nodes m.nodes none none ((c.before ++ cell ∷ []) ++ c.behind) =
        rw (append_assoc c.before (cell ∷ []) c.behind) n in
      let steps : l.size - suc i ≡ length c.behind = let e = c.index_is in ground (arith, s, e) in
      let last_is : l.last ≡ last_or ((c.before ++ cell ∷ []) ++ c.behind) none =
        v.last_is
        ∙ ap (λ t. last_or t none) (c.whole ∙ sym (append_assoc c.before (cell ∷ []) c.behind)) in
      let backward : walk_previous (l.size - suc i) m l.last ≡ some (some c.address) =
        ap (λ k. walk_previous k m l.last) steps
        ∙ ap (walk_previous (length c.behind) m) last_is
        ∙ walk_previous_lem m none none (c.before ++ cell ∷ []) c.behind n'
        ∙ ap some (last_or-append c.before (cell ∷ []) none) in
      elim (Bool-cases (ltb i (l.size / 2))) [
        | inl near ↦ rw (near, forward) refl
        | inr far ↦ rw (far, backward) refl
      ]

  load-Cell :
      (i : ℕ) (c : Cell cs i)
      → (n : LNode) × (load m (some c.address) ≡ some n) × (n.datum ≡ c.content)
  unfolding load
  load-Cell i c =
      let n : Nodes m.nodes none none (c.before ++ (c.address, c.content) ∷ c.behind) =
        rw c.whole at v.nodes in
      let (front, (at, back)) =
        Nodes-split m.nodes none none c.before ((c.address, c.content) ∷ c.behind) n in
      (_, at, refl)

  get_found :
      (i : ℕ) (p : Ptr) (n : LNode)
      → ltb i l.size ≡ true
      → llist_get_entry m l i ≡ some p
      → load m p ≡ some n
      → llist_get m l i ≡ some (some n.datum)
  unfolding llist_get
  get_found i p n small e at = rw (small, e, at) refl

  get_none : (i : ℕ) → ltb i l.size ≡ false → llist_get m l i ≡ some none
  unfolding llist_get
  get_none i e = rw e refl

  remove_at_found :
      (i : ℕ) (p : Ptr) (n : LNode) (m' : Memory) (l' : LList)
      → ltb i l.size ≡ true
      → llist_get_entry m l i ≡ some p
      → load m p ≡ some n
      → llist_remove_entry m l p ≡ some (m', l')
      → llist_remove_at m l i ≡ some (some n.datum, m', l')
  unfolding llist_remove_at
  remove_at_found i p n m' l' small e at r = rw (small, e, at, r) refl

  remove_at_none : (i : ℕ) → ltb i l.size ≡ false → llist_remove_at m l i ≡ some (none, m, l)
  unfolding llist_remove_at
  remove_at_none i e = rw e refl

-- `llist_get` returns the datum at an index below the size, whichever end it walks from, and `NULL` at
-- any other; it reads nodes of the list alone.
pub llist_get_lem :
    (m : Memory) (l : LList) (cs : Cells) (i : ℕ)
    → Represents m l cs
    → llist_get m l i ≡ some (get_elem? (data_of cs) i)
llist_get_lem m l cs i v = elim (Bool-cases (ltb i l.size)) [
  | inl small ↦
      let c = Cell-at cs i (let s = v.size_is in ground (arith, s, small)) in
      let (n, at, same) = load-Cell m l cs v i c in
      get_found m l cs v i (some c.address) n small (get_entry_lem m l cs v i c) at
      ∙ ap (λ d. some (some d)) same
      ∙ ap some (sym c.elem_is)
  | inr big ↦
      get_none m l cs v i big
      ∙ ap some (sym (elem_none cs i (let s = v.size_is in ground (arith, s, big))))
]

-- `llist_remove_at` returns the datum at an index below the size and takes that entry out of the list;
-- at any other index it returns `NULL` and leaves the list as it is. The list has fewer than 2^32
-- entries.
pub llist_remove_at_lem :
    (m : Memory) (l : LList) (cs : Cells) (i : ℕ)
    → Represents m l cs
    → length cs < 2 ^ 32
    → (m' : Memory) × (l' : LList) × (cs' : Cells) × (llist_remove_at m l i
        ≡ some (get_elem? (data_of cs) i, m', l'))
      × Represents m' l' cs'
      × (data_of cs' ≡ remove_elem (data_of cs) i)
llist_remove_at_lem m l cs i v bound = elim (Bool-cases (ltb i l.size)) [
  | inl small ↦
      let c = Cell-at cs i (let s = v.size_is in ground (arith, s, small)) in
      let (n, at, same) = load-Cell m l cs v i c in
      let v' : Represents m l (c.before ++ (c.address, c.content) ∷ c.behind) = rw c.whole at v in
      let bound' : length (c.before ++ (c.address, c.content) ∷ c.behind) < 2 ^ 32 =
        rw c.whole at bound in
      let (m', l', e, w, freed) =
        remove_entry_lem m l c.address c.content c.before c.behind v' bound' in
      (
        m',
        l',
        c.before ++ c.behind,
        remove_at_found m l cs v i (some c.address) n m' l' small (get_entry_lem m l cs v i c) at e
            ∙ ap (λ d. some (some d, m', l')) same
            ∙ ap (λ o. some (o, m', l')) (sym c.elem_is),
        w,
        c.left,
      )
  | inr big ↦
      let s = v.size_is in
      let out : length cs ≤ i = ground (arith, s, big) in
      (
        m,
        l,
        cs,
        remove_at_none m l cs v i big ∙ ap (λ o. some (o, m, l)) (sym (elem_none cs i out)),
        v,
        sym (remove_none cs i out),
      )
]
