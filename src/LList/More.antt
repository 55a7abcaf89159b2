-- ===== src/LList/More.antt =====
-- The operations of src/common/llist.c that walk over a whole list, and those that build on the others.
use renameutils.Common.{
  ℕ, zero, suc, List, [], ◌∷◌, Option, none, some, ◌==◌, ltb, if◌then◌else◌, length, ◌≡◌, inl, inr,
  refl, ap, ◌∙◌, arith, ◌<◌,
}
use renameutils.LList.{
  Ptr, LList, Memory, ◌>>=◌, write, load, malloc, set_next, set_previous, free, size_up, llist_new,
  llist_get_entry, llist_add_last,
}
use renameutils.LList.Segments.{
  Cells, data_of, At, At-same, Apart, head_or, Nodes, Nodes-frame, Represents,
}
use renameutils.LList.Links.{write_self, write_other, free_ok}

-- `while (entry != NULL) { … free(entry); entry = next; }`
unfoldable pub free_entries : ℕ → Memory → Ptr → Option Memory
free_entries zero m entry = none
free_entries (suc fuel) m none = some m
free_entries (suc fuel) m (some a) = do
  n ← m.nodes a
  m' ← free m (some a)
  free_entries fuel m' n.next

unfoldable pub llist_clear : Memory → LList → Option (Memory × LList)
llist_clear m l = do m' ← free_entries (suc l.size) m l.first; some (m', llist_new)

-- `llist_iterate`, `llist_to_array` and a loop with an iterator: the data that are met.
unfoldable pub iterate_entries : ℕ → Memory → Ptr → Option (List ℕ)
iterate_entries zero m entry = none
iterate_entries (suc fuel) m none = some []
iterate_entries (suc fuel) m (some a) = do
  n ← m.nodes a
  rest ← iterate_entries fuel m n.next
  some (n.datum ∷ rest)

unfoldable pub llist_iterate : Memory → LList → Option (List ℕ)
llist_iterate m l = iterate_entries (suc l.size) m l.first

-- `llist_index_of`, with `none` for -1.
unfoldable pub index_from : ℕ → Memory → Ptr → ℕ → ℕ → Option (Option ℕ)
index_from zero m entry index datum = none
index_from (suc fuel) m none index datum = some none
index_from (suc fuel) m (some a) index datum = do
  n ← m.nodes a
  (if n.datum == datum then some (some index) else index_from fuel m n.next (suc index) datum)

unfoldable pub llist_index_of : Memory → LList → ℕ → Option (Option ℕ)
llist_index_of m l datum = index_from (suc l.size) m l.first 0 datum

unfoldable pub llist_set : Memory → LList → ℕ → ℕ → Option (Option ℕ × Memory)
llist_set m l index datum =
    if ltb index l.size
    then (do
      entry ← llist_get_entry m l index
      n ← load m entry
      (let old_datum = n.datum in
          elim entry [
            | none ↦ none
            | some a ↦ some (some old_datum, write m a (some (record n { datum = old_datum })))
          ]))
    else some (none, m)

-- `after->previous == NULL` or not: the new entry goes before `after`.
unfoldable pub put_before : Memory → LList → Ptr → ℕ → Option (Memory × LList)
put_before m l after datum = do
  n ← load m after
  (let entry = some m.unused in
      let m' = malloc m (record { datum = datum; next = after; previous = n.previous }) in
      elim n.previous [
        | none ↦ do
          m'' ← set_previous m' after entry
          some (m'', record l { first = entry; size = size_up l.size })
        | some b ↦ do
          m₂ ← set_next m' (some b) entry
          m'' ← set_previous m₂ after entry
          some (m'', record l { size = size_up l.size })
      ])

unfoldable pub llist_add_at : Memory → LList → ℕ → ℕ → Option (Memory × LList)
llist_add_at m l index datum =
    if ltb index l.size
    then (do after ← llist_get_entry m l index; put_before m l after datum)
    else if index == l.size
    then llist_add_last m l datum
    else some (m, l)

-- `llist_add_all` where the second list is another: the rounds that are left, from `c` on.
unfoldable pub add_all_from : ℕ → Memory → LList → LList → ℕ → Option (Memory × LList)
add_all_from zero m l list2 c = some (m, l)
add_all_from (suc rounds) m l list2 c = do
  entry ← llist_get_entry m list2 c
  n ← load m entry
  r ← llist_add_last m l n.datum
  add_all_from rounds r.0 r.1 list2 (suc c)

unfoldable pub llist_add_all : Memory → LList → LList → Option (Memory × LList)
llist_add_all m l list2 = add_all_from list2.size m l list2 0

iterate_entries_lem :
    (fuel : ℕ) (m : Memory) (prev : Ptr) (cs : Cells)
    → Nodes m.nodes prev none cs
    → length cs < fuel
    → iterate_entries fuel m (head_or cs none) ≡ some (data_of cs)
unfolding iterate_entries
iterate_entries_lem zero m prev cs n enough = absurd (ground arith)
iterate_entries_lem (suc fuel) m prev [] n enough = refl
iterate_entries_lem (suc fuel) m prev ((a, d) ∷ cs) (at, n) enough =
    rw (at, iterate_entries_lem fuel m (some a) cs n (ground arith)) refl

-- A walk over a list meets its data in order, each entry once, and ends.
pub llist_iterate_lem :
    (m : Memory) (l : LList) (cs : Cells)
    → Represents m l cs
    → llist_iterate m l ≡ some (data_of cs)
unfolding llist_iterate
llist_iterate_lem m l cs v =
    ap (iterate_entries (suc l.size) m) v.first_is
    ∙ iterate_entries_lem (suc l.size) m none cs v.nodes (let s = v.size_is in ground (arith, s))

free_entries_lem :
    (fuel : ℕ) (m : Memory) (prev : Ptr) (cs : Cells)
    → Nodes m.nodes prev none cs
    → Apart cs
    → length cs < fuel
    → (m' : Memory) × (free_entries fuel m (head_or cs none) ≡ some m')
      × ((b : ℕ) → At b cs → m'.nodes b ≡ none)
      × ((b : ℕ) → (At b cs → ⊥) → m'.nodes b ≡ m.nodes b)
unfolding free_entries
free_entries_lem zero m prev cs n p enough = absurd (ground arith)
free_entries_lem (suc fuel) m prev [] n p enough = (m, refl, λ b h. absurd h, λ b h. refl)
free_entries_lem (suc fuel) m prev ((a, d) ∷ cs) (at, n) (off, p) enough =
    let f = free_ok m a (record { datum = d; next = head_or cs none; previous = prev }) at in
    let n' =
      Nodes-frame m.nodes (write m a none).nodes (some a) none cs
        (λ b h. write_other m a none b (λ e. off (At-same cs e h))) n in
    let (m', e, gone, kept) =
      free_entries_lem fuel (write m a none) (some a) cs n' p (ground arith) in
    (
      m',
      rw (at, f) e,
      λ b h. elim h [ inl same ↦ rw same (kept a off ∙ write_self m a none) | inr g ↦ gone b g ],
      λ b h. kept b (λ g. h (inr g)) ∙ write_other m a none b (λ e. h (inl e)),
    )

-- `llist_clear` frees every node of the list, once each, and no other, and leaves an empty list.
pub llist_clear_lem :
    (m : Memory) (l : LList) (cs : Cells)
    → Represents m l cs
    → (m' : Memory) × (l' : LList) × (llist_clear m l ≡ some (m', l'))
      × Represents m' l' []
      × ((b : ℕ) → At b cs → m'.nodes b ≡ none)
      × ((b : ℕ) → (At b cs → ⊥) → m'.nodes b ≡ m.nodes b)
unfolding llist_clear
llist_clear_lem m l cs v =
    let (m', e, gone, kept) =
      free_entries_lem (suc l.size) m none cs v.nodes v.apart
        (let s = v.size_is in ground (arith, s)) in
    let e' : free_entries (suc l.size) m l.first ≡ some m' =
      ap (free_entries (suc l.size) m) v.first_is ∙ e in
    (
      m',
      llist_new,
      rw e' refl,
      record {
        first_is = refl;
        last_is = refl;
        size_is = refl;
        nodes = tt;
        apart = tt;
        used = λ b h. absurd h;
      },
      gone,
      kept,
    )
