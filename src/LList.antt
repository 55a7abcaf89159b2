-- ===== src/LList.antt =====
-- src/common/llist.c: doubly linked lists.
--
-- A node's address is a number, and a memory is what stands at each address. An operation has no
-- result if it reads or writes where no node is: `NULL`, or a node that has been freed. `malloc` gives
-- an address that was never used. Data are numbers; they stand for the `void *` of the code.
pub mod Segments
pub mod Links
pub mod Unlink
pub mod Ends
pub mod Back
pub mod Find
pub mod Index
pub mod Deque
pub mod More
pub mod SetEntry
mod Tests
use renameutils.Common.{
  ℕ, zero, suc, ◌+◌, ◌-◌, ◌/◌, ◌%◌, ◌^◌, Bool, true, false, Option, none, some, ◌==◌, ltb,
  if◌then◌else◌,
}

abbrev pub Ptr : Type 0
Ptr = Option ℕ

pub record LNode : Type 0 where
  pub datum : ℕ
  pub next : Ptr
  pub previous : Ptr

pub record LList : Type 0 where
  pub first : Ptr
  pub last : Ptr
  pub size : ℕ

pub record Memory : Type 0 where
  pub nodes : ℕ → Option LNode
  pub unused : ℕ

infixl 5 ◌>>=◌
abbrev pub ◌>>=◌ {ℓ κ} : {A : Type ℓ} {B : Type κ} → Option A → (A → Option B) → Option B
none >>= f = none
some a >>= f = f a

abbrev pub write : Memory → ℕ → Option LNode → Memory
write m a c = record m { nodes = λ b. if b == a then c else m.nodes b }

unfoldable pub load : Memory → Ptr → Option LNode
load m none = none
load m (some a) = m.nodes a

unfoldable pub set_next : Memory → Ptr → Ptr → Option Memory
set_next m none q = none
set_next m (some a) q = do n ← m.nodes a; some (write m a (some (record n { next = q })))

unfoldable pub set_previous : Memory → Ptr → Ptr → Option Memory
set_previous m none q = none
set_previous m (some a) q = do n ← m.nodes a; some (write m a (some (record n { previous = q })))

unfoldable pub free : Memory → Ptr → Option Memory
free m none = none
free m (some a) = do n ← m.nodes a; some (write m a none)

-- `xmalloc`, and the writes to the fields of the node that follow.
abbrev pub malloc : Memory → LNode → Memory
malloc m n = record (write m m.unused (some n)) { unused = suc m.unused }

abbrev pub ptr_eq : Ptr → Ptr → Bool
ptr_eq none none = true
ptr_eq (some a) (some b) = a == b
ptr_eq _ _ = false

-- `size++` and `size--` of a `uint32_t`
abbrev pub size_up : ℕ → ℕ
size_up n = (n + 1) % 2 ^ 32

abbrev pub size_down : ℕ → ℕ
size_down n = (n + (2 ^ 32 - 1)) % 2 ^ 32

abbrev pub llist_new : LList
llist_new = record { first = none; last = none; size = 0 }

unfoldable pub llist_get_first : Memory → LList → Option (Option ℕ)
llist_get_first m l =
    if l.size == 0 then some none else (do n ← load m l.first; some (some n.datum))

unfoldable pub llist_get_last : Memory → LList → Option (Option ℕ)
llist_get_last m l = if l.size == 0 then some none else (do n ← load m l.last; some (some n.datum))

-- `if (entry->next != NULL) entry->next->previous = NULL; else list->last = NULL`
unfoldable pub cut_front : Memory → Ptr → Ptr → Option (Memory × Ptr)
cut_front m none last = some (m, none)
cut_front m (some a) last = do m' ← set_previous m (some a) none; some (m', last)

unfoldable pub llist_remove_first : Memory → LList → Option (Option ℕ × Memory × LList)
llist_remove_first m l = if l.size == 0 then some (none, m, l) else (do
  entry ← load m l.first
  cut ← cut_front m entry.next l.last
  m' ← free cut.0 l.first
  some (some entry.datum, m', record { first = entry.next; last = cut.1; size = size_down l.size }))

-- `if (entry->previous != NULL) entry->previous->next = NULL; else list->first = NULL`
unfoldable pub cut_back : Memory → Ptr → Ptr → Option (Memory × Ptr)
cut_back m none first = some (m, none)
cut_back m (some a) first = do m' ← set_next m (some a) none; some (m', first)

unfoldable pub llist_remove_last : Memory → LList → Option (Option ℕ × Memory × LList)
llist_remove_last m l = if l.size == 0 then some (none, m, l) else (do
  entry ← load m l.last
  cut ← cut_back m entry.previous l.first
  m' ← free cut.0 l.last
  some (
    some entry.datum,
    m',
    record { first = cut.1; last = entry.previous; size = size_down l.size },
  ))

unfoldable pub llist_add_first : Memory → LList → ℕ → Option (Memory × LList)
llist_add_first m l datum =
    let entry = some m.unused in
    if l.size == 0
    then some (
      malloc m (record { datum = datum; next = none; previous = none }),
      record { first = entry; last = entry; size = size_up l.size },
    )
    else (do
      m' ←
          set_previous (malloc m (record { datum = datum; next = l.first; previous = none }))
            l.first entry
      some (m', record l { first = entry; size = size_up l.size }))

-- `llist_add_last`, with `llist_add_last_entry`
unfoldable pub llist_add_last : Memory → LList → ℕ → Option (Memory × LList)
llist_add_last m l datum =
    let entry = some m.unused in
    if l.size == 0
    then some (
      malloc m (record { datum = datum; next = none; previous = none }),
      record { first = entry; last = entry; size = size_up l.size },
    )
    else (do
      m' ←
          set_next (malloc m (record { datum = datum; next = none; previous = l.last })) l.last
            entry
      some (m', record l { last = entry; size = size_up l.size }))

-- The branches of `llist_remove_entry`: the memory, `first` and `last`.
unfoldable pub unlink : Memory → LList → Ptr → LNode → Option (Memory × Ptr × Ptr)
unlink m l entry n =
    if l.size == 1
    then some (m, none, none)
    else if ptr_eq entry l.first
    then (do m' ← set_previous m n.next none; some (m', n.next, l.last))
    else if ptr_eq entry l.last
    then (do m' ← set_next m n.previous none; some (m', l.first, n.previous))
    else (do
      m' ← set_previous m n.next n.previous
      m'' ← set_next m' n.previous n.next
      some (m'', l.first, l.last))

unfoldable pub llist_remove_entry : Memory → LList → Ptr → Option (Memory × LList)
llist_remove_entry m l entry = do
  n ← load m entry
  u ← unlink m l entry n
  m' ← free u.0 entry
  some (m', record { first = u.1; last = u.2; size = size_down l.size })

-- `for (entry = list->first; entry != NULL; entry = entry->next)`, up to the first with the data.
unfoldable pub find_entry : ℕ → Memory → Ptr → ℕ → Option Ptr
find_entry zero m entry datum = none
find_entry (suc fuel) m none datum = some none
find_entry (suc fuel) m (some a) datum = do
  n ← m.nodes a
  (if n.datum == datum then some (some a) else find_entry fuel m n.next datum)

unfoldable pub llist_remove : Memory → LList → ℕ → Option (Bool × Memory × LList)
llist_remove m l datum = do
  entry ← find_entry (suc l.size) m l.first datum
  elim entry [
    | none ↦ some (false, m, l)
    | some a ↦ do r ← llist_remove_entry m l (some a); some (true, r.0, r.1)
  ]

unfoldable pub llist_contains : Memory → LList → ℕ → Option Bool
llist_contains m l datum = do
  entry ← find_entry (suc l.size) m l.first datum
  elim entry [ none ↦ some false | some a ↦ some true ]

-- `while (index-- > 0) entry = entry->next`
unfoldable pub walk_next : ℕ → Memory → Ptr → Option Ptr
walk_next zero m entry = some entry
walk_next (suc index) m entry = do n ← load m entry; walk_next index m n.next

unfoldable pub walk_previous : ℕ → Memory → Ptr → Option Ptr
walk_previous zero m entry = some entry
walk_previous (suc index) m entry = do n ← load m entry; walk_previous index m n.previous

-- The second loop, `while (++index < list->size)`, has `size - (index + 1)` rounds.
unfoldable pub llist_get_entry : Memory → LList → ℕ → Option Ptr
llist_get_entry m l index =
    if ltb index (l.size / 2)
    then walk_next index m l.first
    else walk_previous (l.size - suc index) m l.last

unfoldable pub llist_get : Memory → LList → ℕ → Option (Option ℕ)
llist_get m l index =
    if ltb index l.size
    then (do entry ← llist_get_entry m l index; n ← load m entry; some (some n.datum))
    else some none

unfoldable pub llist_remove_at : Memory → LList → ℕ → Option (Option ℕ × Memory × LList)
llist_remove_at m l index =
    if ltb index l.size
    then (do
      entry ← llist_get_entry m l index
      n ← load m entry
      r ← llist_remove_entry m l entry
      some (some n.datum, r.0, r.1))
    else some (none, m, l)

-- An iterator is the entry that comes next.
abbrev pub llist_iterator : LList → Ptr
llist_iterator l = l.first

abbrev pub iterator_has_next : Ptr → Bool
iterator_has_next none = false
iterator_has_next (some a) = true

unfoldable pub iterator_next : Memory → Ptr → Option (ℕ × Ptr)
iterator_next m it = do n ← load m it; some (n.datum, n.next)

-- `internal_error` ends the program, which is no result.
unfoldable pub iterator_remove : Memory → LList → Ptr → Option (Memory × LList)
iterator_remove m l it = if ptr_eq l.first it then none else elim it [
  | none ↦ llist_remove_entry m l l.last
  | some a ↦ do n ← m.nodes a; llist_remove_entry m l n.previous
]
