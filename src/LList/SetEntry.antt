-- ===== src/LList/SetEntry.antt =====
-- What `llist_set` does to a list.
use renameutils.Common.{
  ℕ, ◌++◌, ◌∷◌, true, false, none, some, ◌≡◌, inl, inr, refl, sym, ap, ◌∙◌, arith, ==_iff,
  Bool-cases, ◌==◌, ltb, length, ◌≤◌,
}
use renameutils.LList.{LNode, LList, Memory, write, load, llist_get_entry}
use renameutils.LList.Segments.{
  Cells, data_of, head_or, last_or, Nodes, Nodes-frame, Nodes-split, Represents,
}
use renameutils.LList.Links.{write_self, write_other}
use renameutils.LList.Index.{get_elem?, Cell-at, elem_none, get_entry_lem}
use renameutils.LList.More.{llist_set}

module _ (m : Memory) (l : LList) (cs : Cells) (v : Represents m l cs) where
  -- A node is written over with itself.
  rewritten : (a : ℕ) (n : LNode) → m.nodes a ≡ some n → Represents (write m a (some n)) l cs
  rewritten a n e = record {
    first_is = v.first_is;
    last_is = v.last_is;
    size_is = v.size_is;
    nodes = Nodes-frame m.nodes (write m a (some n)).nodes none none cs (λ b h. same b) v.nodes;
    apart = v.apart;
    used = v.used;
  }
    where
      same : (b : ℕ) → (write m a (some n)).nodes b ≡ m.nodes b
      same b = elim (Bool-cases (b == a)) [
        | inl at ↦
            let g : b ≡ a = ground (arith, at, ==_iff b a) in rw g (write_self m a (some n) ∙ sym e)
        | inr off ↦ write_other m a (some n) b (λ g. ground (arith, off, g, ==_iff b a))
      ]

  set_found :
      (i d a : ℕ) (n : LNode)
      → ltb i l.size ≡ true
      → llist_get_entry m l i ≡ some (some a)
      → m.nodes a ≡ some n
      → llist_set m l i d ≡ some (some n.datum, write m a (some n))
  unfolding llist_set load
  set_found i d a n small e at = rw (small, e, at) refl

  set_none : (i d : ℕ) → ltb i l.size ≡ false → llist_set m l i d ≡ some (none, m)
  unfolding llist_set
  set_none i d e = rw e refl

-- `llist_set` changes nothing: it returns the datum at the index, or `NULL` where there is none, and
-- the list has the same data afterwards, whatever the datum that it is given.
pub llist_set-Represents :
    (m : Memory) (l : LList) (cs : Cells) (i d : ℕ)
    → Represents m l cs
    → (m' : Memory) × (llist_set m l i d ≡ some (get_elem? (data_of cs) i, m')) × Represents m' l cs
llist_set-Represents m l cs i d v = elim (Bool-cases (ltb i l.size)) [
  | inl small ↦
      let c = Cell-at cs i (let s = v.size_is in ground (arith, s, small)) in
      let n : Nodes m.nodes none none (c.before ++ (c.address, c.content) ∷ c.behind) =
        rw c.whole at v.nodes in
      let (front, (at, back)) =
        Nodes-split m.nodes none none c.before ((c.address, c.content) ∷ c.behind) n in
      let node : LNode = record {
        datum = c.content;
        next = head_or c.behind none;
        previous = last_or c.before none;
      } in
      (
        write m c.address (some node),
        set_found m l cs v i d c.address node small (get_entry_lem m l cs v i c) at
            ∙ ap (λ o. some (o, write m c.address (some node))) (sym c.elem_is),
        rewritten m l cs v c.address node at,
      )
  | inr big ↦
      let s = v.size_is in
      let out : length cs ≤ i = ground (arith, s, big) in
      (m, set_none m l cs v i d big ∙ ap (λ o. some (o, m)) (sym (elem_none cs i out)), v)
]
