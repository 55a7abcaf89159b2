-- ===== src/LList/Tests.antt =====
-- A list of 7, 5 and 7.
use renameutils.Common.{ℕ, [], ◌∷◌, ◌++◌, none, some, ◌≡◌, refl, arith, ◌==◌, if◌then◌else◌}
use renameutils.Apply as A
use renameutils.LList.{
  LNode, LList, Memory, Ptr, llist_add_first, llist_add_last, llist_remove_first, llist_remove_last,
  llist_remove, llist_get, iterator_next, iterator_remove,
}
use renameutils.LList.Segments.{Cells, data_of, At, head_or, Represents}
use renameutils.LList.Find.{has, llist_remove_lem, iterator_remove-next}
use renameutils.LList.Index.{get_elem?, llist_get_lem}
use renameutils.LList.Deque.{llist_add_lem, remove-add}
use renameutils.LList.More.{llist_clear, llist_set, llist_clear_lem}
use renameutils.LList.SetEntry.{llist_set-Represents}

abbrev node : ℕ → Ptr → Ptr → LNode
node d q p = record { datum = d; next = q; previous = p }

abbrev memory : Memory
memory = record {
  nodes = λ a.
      if a == 0
      then some (node 7 (some 1) none)
      else if a == 1
      then some (node 5 (some 2) (some 0))
      else if a == 2
      then some (node 7 none (some 1))
      else none;
  unused = 3;
}

abbrev three : LList
three = record { first = some 0; last = some 2; size = 3 }

abbrev cells : Cells
cells = (0, 7) ∷ (1, 5) ∷ (2, 7) ∷ []

cells-Represents : Represents memory three cells
cells-Represents = record {
  first_is = refl;
  last_is = refl;
  size_is = refl;
  nodes = (refl, (refl, (refl, tt)));
  apart = ((λ h. ground arith), ((λ h. ground arith), ((λ h. h), tt)));
  used = λ b h. ground (arith, h);
}

llist_remove_lem_example :
    (m' : Memory) × (l' : LList) × (cs' : Cells) × (llist_remove memory three 5
      ≡ some (has 5 cells, m', l'))
    × Represents m' l' cs'
    × (data_of cs' ≡ A.llist_remove (data_of cells) 5)
llist_remove_lem_example = llist_remove_lem memory three cells 5 cells-Represents (ground arith)

iterator_remove-next_example :
    (m' : Memory) × (l' : LList) × (iterator_next memory (head_or ((1, 5) ∷ (2, 7) ∷ []) none)
      ≡ some (5, head_or ((2, 7) ∷ []) none))
    × (iterator_remove memory three (head_or ((2, 7) ∷ []) none) ≡ some (m', l'))
    × Represents m' l' (((0, 7) ∷ []) ++ (2, 7) ∷ [])
iterator_remove-next_example =
    iterator_remove-next memory three ((0, 7) ∷ []) ((2, 7) ∷ []) 1 5 cells-Represents
      (ground arith)

llist_get_lem_example : llist_get memory three 2 ≡ some (get_elem? (data_of cells) 2)
llist_get_lem_example = llist_get_lem memory three cells 2 cells-Represents

llist_add_lem_example :
    ((m' : Memory) × (l' : LList) × (cs' : Cells) × (llist_add_first memory three 9 ≡ some (m', l'))
      × Represents m' l' cs'
      × (data_of cs' ≡ 9 ∷ data_of cells))
    × ((m' : Memory) × (l' : LList) × (cs' : Cells) × (llist_add_last memory three 9
          ≡ some (m', l'))
        × Represents m' l' cs'
        × (data_of cs' ≡ data_of cells ++ 9 ∷ []))
llist_add_lem_example = llist_add_lem memory three cells 9 cells-Represents (ground arith)

remove-add_example :
    ((m₁ m₂ : Memory) × (l₁ l₂ : LList) × (llist_add_first memory three 9 ≡ some (m₁, l₁))
      × (llist_remove_first m₁ l₁ ≡ some (some 9, m₂, l₂))
      × Represents m₂ l₂ cells)
    × ((m₁ m₂ : Memory) × (l₁ l₂ : LList) × (llist_add_last memory three 9 ≡ some (m₁, l₁))
        × (llist_remove_last m₁ l₁ ≡ some (some 9, m₂, l₂))
        × Represents m₂ l₂ cells)
remove-add_example = remove-add memory three cells 9 cells-Represents (ground arith)

llist_clear_lem_example :
    (m' : Memory) × (l' : LList) × (llist_clear memory three ≡ some (m', l'))
    × Represents m' l' []
    × ((b : ℕ) → At b cells → m'.nodes b ≡ none)
    × ((b : ℕ) → (At b cells → ⊥) → m'.nodes b ≡ memory.nodes b)
llist_clear_lem_example = llist_clear_lem memory three cells cells-Represents

llist_set-Represents_example :
    (m' : Memory) × (llist_set memory three 1 9 ≡ some (get_elem? (data_of cells) 1, m'))
    × Represents m' three cells
llist_set-Represents_example = llist_set-Represents memory three cells 1 9 cells-Represents
