-- ===== src/LList/Deque.antt =====
-- The two ends of a list, as the ends of the sequence of its data.
use renameutils.Common.{ℕ, ◌+◌, ◌<◌, ◌^◌, [], ◌∷◌, ◌++◌, some, ◌≡◌, refl, ap, length}
use renameutils.LList.{
  LList, Memory, llist_add_first, llist_add_last, llist_remove_first, llist_remove_last,
}
use renameutils.LList.Segments.{Cells, data_of, Represents}
use renameutils.LList.Ends.{add_first_lem, add_last_lem, remove_first_lem}
use renameutils.LList.Back.{remove_last_lem}

data_of-append : (xs ys : Cells) → data_of (xs ++ ys) ≡ data_of xs ++ data_of ys
data_of-append [] ys = refl
data_of-append ((a, d) ∷ xs) ys = ap (λ t. d ∷ t) (data_of-append xs ys)

-- A datum is added in front of the data by `llist_add_first`, and behind them by `llist_add_last`,
-- where the list keeps fewer than 2^32 entries.
pub llist_add_lem :
    (m : Memory) (l : LList) (cs : Cells) (d : ℕ)
    → Represents m l cs
    → length cs + 1 < 2 ^ 32
    → ((m' : Memory) × (l' : LList) × (cs' : Cells) × (llist_add_first m l d ≡ some (m', l'))
        × Represents m' l' cs'
        × (data_of cs' ≡ d ∷ data_of cs))
      × ((m' : Memory) × (l' : LList) × (cs' : Cells) × (llist_add_last m l d ≡ some (m', l'))
          × Represents m' l' cs'
          × (data_of cs' ≡ data_of cs ++ d ∷ []))
llist_add_lem m l cs d v bound =
    let (m₁, l₁, e₁, v₁) = add_first_lem m l d cs v bound in
    let (m₂, l₂, e₂, v₂) = add_last_lem m l d cs v bound in
    (
      (m₁, l₁, (m.unused, d) ∷ cs, e₁, v₁, refl),
      (m₂, l₂, cs ++ (m.unused, d) ∷ [], e₂, v₂, data_of-append cs ((m.unused, d) ∷ [])),
    )

-- What is added at an end is what a removal at that end returns, and the list has its data back. The
-- list keeps fewer than 2^32 entries.
pub remove-add :
    (m : Memory) (l : LList) (cs : Cells) (d : ℕ)
    → Represents m l cs
    → length cs + 1 < 2 ^ 32
    → ((m₁ m₂ : Memory) × (l₁ l₂ : LList) × (llist_add_first m l d ≡ some (m₁, l₁))
        × (llist_remove_first m₁ l₁ ≡ some (some d, m₂, l₂))
        × Represents m₂ l₂ cs)
      × ((m₁ m₂ : Memory) × (l₁ l₂ : LList) × (llist_add_last m l d ≡ some (m₁, l₁))
          × (llist_remove_last m₁ l₁ ≡ some (some d, m₂, l₂))
          × Represents m₂ l₂ cs)
remove-add m l cs d v bound =
    let (m₁, l₁, e₁, v₁) = add_first_lem m l d cs v bound in
    let (m₂, l₂, e₂, v₂) = remove_first_lem m₁ l₁ m.unused d cs v₁ bound in
    let (m₃, l₃, e₃, v₃) = add_last_lem m l d cs v bound in
    let (m₄, l₄, e₄, v₄) = remove_last_lem m₃ l₃ m.unused d cs v₃ bound in
    ((m₁, m₂, l₁, l₂, e₁, e₂, v₂), (m₃, m₄, l₃, l₄, e₃, e₄, v₄))
