-- ===== src/LList/Unlink.antt =====
-- `llist_remove_entry`: the entry is taken out of the list, wherever it stands.
use renameutils.Common.{
  ℕ, suc, ◌+◌, ◌<◌, ◌^◌, true, false, [], ◌∷◌, ◌++◌, none, some, ◌≡◌, ◌≢◌, inl, inr, refl, sym, ◌∙◌,
  arith, ==_iff, ◌==◌, length, length-append,
}
use renameutils.LList.{
  Ptr, LNode, LList, Memory, write, load, ptr_eq, unlink, size_down, llist_remove_entry,
}
use renameutils.LList.Segments.{
  Cells, At, At-same, Apart, head_or, last_or, Nodes, Nodes-frame, Nodes-append, Nodes-split,
  Represents, head_or-append, last_or-append, At-left, At-right, At-append, Apart-split,
  Apart-append, last_or-some,
}
use renameutils.LList.Links.{write_self, write_other, free_ok, set_next_last, set_previous_first}

-- What `unlink` comes to, between the cells `xs` and `ys`.
record Unlinked (m : Memory) (a : ℕ) (xs ys : Cells) (r : Memory × Ptr × Ptr) : Type 0 where
  front : Nodes r.0.nodes none (head_or ys none) xs
  back : Nodes r.0.nodes (last_or xs none) none ys
  first_is : r.1 ≡ head_or (xs ++ ys) none
  last_is : r.2 ≡ last_or (xs ++ ys) none
  kept : r.0.nodes a ≡ m.nodes a
  unused_same : r.0.unused ≡ m.unused

ptr_differ : (a b : ℕ) (p : Ptr) → p ≡ some b → a ≢ b → ptr_eq (some a) p ≡ false
ptr_differ a b p e n = rw e (ground (arith, ==_iff a b))

ptr_same : (a : ℕ) (p : Ptr) → p ≡ some a → ptr_eq (some a) p ≡ true
ptr_same a p e = rw e (ground (arith, ==_iff a a))

module _ (m : Memory) (l : LList) (a d : ℕ) where
  abbrev node : Cells → Cells → LNode
  node xs ys = record { datum = d; next = head_or ys none; previous = last_or xs none }

  -- The cells before and behind the entry.
  record Around (xs ys : Cells) : Type 0 where
    size_is : l.size ≡ suc (length xs + length ys)
    first_is : l.first ≡ head_or xs (some a)
    last_is : l.last ≡ last_or ys (some a)
    front : Nodes m.nodes none (some a) xs
    back : Nodes m.nodes (some a) none ys
    apart_xs : Apart xs
    apart_ys : Apart ys
    off_xs : At a xs → ⊥
    off_ys : At a ys → ⊥
    disjoint : (b : ℕ) → At b xs → At b ys → ⊥

  abbrev Result : Cells → Cells → Type 0
  Result xs ys =
      (r : Memory × Ptr × Ptr) × (unlink m l (some a) (node xs ys) ≡ some r) × Unlinked m a xs ys r

  unlink_only : Around [] [] → Result [] []
  unfolding unlink
  unlink_only v =
      let one : (l.size == 1) ≡ true = let s = v.size_is in ground (arith, s, ==_iff l.size 1) in
      (
        (m, none, none),
        rw one refl,
        record {
          front = tt;
          back = tt;
          first_is = refl;
          last_is = refl;
          kept = refl;
          unused_same = refl;
        },
      )

  unlink_first : (b e : ℕ) (ys : Cells) → Around [] ((b, e) ∷ ys) → Result [] ((b, e) ∷ ys)
  unfolding unlink
  unlink_first b e ys v =
      let more : (l.size == 1) ≡ false = let s = v.size_is in ground (arith, s, ==_iff l.size 1) in
      let at = ptr_same a l.first v.first_is in
      let (m', w, n, within) = set_previous_first m (some a) none none b e ys v.back v.apart_ys in
      (
        (m', some b, l.last),
        rw (more, at, w) refl,
        record {
          front = tt;
          back = n;
          first_is = refl;
          last_is = v.last_is;
          kept = within.outside a v.off_ys;
          unused_same = within.unused_same;
        },
      )

  unlink_last : (b e : ℕ) (xs : Cells) → Around ((b, e) ∷ xs) [] → Result ((b, e) ∷ xs) []
  unfolding unlink
  unlink_last b e xs v =
      let more : (l.size == 1) ≡ false = let s = v.size_is in ground (arith, s, ==_iff l.size 1) in
      let off = ptr_differ a b l.first v.first_is (λ g. v.off_xs (inl g)) in
      let at = ptr_same a l.last v.last_is in
      let (m', w, n, within) = set_next_last m none (some a) none b e xs v.front v.apart_xs in
      (
        (m', l.first, last_or xs (some b)),
        rw (more, off, at, w) refl,
        record {
          front = n;
          back = tt;
          first_is = v.first_is ∙ sym (head_or-append ((b, e) ∷ xs) [] none);
          last_is = sym (last_or-append ((b, e) ∷ xs) [] none);
          kept = within.outside a v.off_xs;
          unused_same = within.unused_same;
        },
      )

  unlink_middle :
      (b e : ℕ) (xs : Cells) (c f : ℕ) (ys : Cells)
      → Around ((b, e) ∷ xs) ((c, f) ∷ ys)
      → Result ((b, e) ∷ xs) ((c, f) ∷ ys)
  unfolding unlink
  unlink_middle b e xs c f ys v =
      let more : (l.size == 1) ≡ false = let s = v.size_is in ground (arith, s, ==_iff l.size 1) in
      let off = ptr_differ a b l.first v.first_is (λ g. v.off_xs (inl g)) in
      let (z, ez, hz) = last_or-some c f ys (some a) in
      let off' =
        ptr_differ a z l.last (v.last_is ∙ ez) (λ g. v.off_ys (At-same ((c, f) ∷ ys) (sym g) hz)) in
      let before = last_or xs (some b) in
      let (m', w, n, within) = set_previous_first m (some a) before none c f ys v.back v.apart_ys in
      let front' =
        Nodes-frame m.nodes m'.nodes none (some a) ((b, e) ∷ xs)
          (λ k h. within.outside k (λ g. v.disjoint k h g)) v.front in
      let (m'', w', n', within') =
        set_next_last m' none (some a) (some c) b e xs front' v.apart_xs in
      (
        (m'', l.first, l.last),
        rw (more, off, off', w, w') refl,
        record {
          front = n';
          back =
              Nodes-frame m'.nodes m''.nodes before none ((c, f) ∷ ys)
                (λ k h. within'.outside k (λ g. v.disjoint k g h)) n;
          first_is = v.first_is;
          last_is = v.last_is ∙ sym (last_or-append ((b, e) ∷ xs) ((c, f) ∷ ys) none);
          kept = within'.outside a v.off_xs ∙ within.outside a v.off_ys;
          unused_same = within'.unused_same ∙ within.unused_same;
        },
      )

  unlink_lem : (xs ys : Cells) → Around xs ys → Result xs ys
  unlink_lem [] [] v = unlink_only v
  unlink_lem [] ((b, e) ∷ ys) v = unlink_first b e ys v
  unlink_lem ((b, e) ∷ xs) [] v = unlink_last b e xs v
  unlink_lem ((b, e) ∷ xs) ((c, f) ∷ ys) v = unlink_middle b e xs c f ys v

  split-Around : (xs ys : Cells) → Represents m l (xs ++ (a, d) ∷ ys) → Around xs ys
  split-Around xs ys v =
      let (front, (at, back)) = Nodes-split m.nodes none none xs ((a, d) ∷ ys) v.nodes in
      let (px, (off, py), dis) = Apart-split xs ((a, d) ∷ ys) v.apart in
      record {
        size_is = v.size_is ∙ length-append xs ((a, d) ∷ ys) ∙ omega arith;
        first_is = v.first_is ∙ head_or-append xs ((a, d) ∷ ys) none;
        last_is = v.last_is ∙ last_or-append xs ((a, d) ∷ ys) none;
        front = front;
        back = back;
        apart_xs = px;
        apart_ys = py;
        off_xs = λ h. dis a h (inl refl);
        off_ys = off;
        disjoint = λ b h g. dis b h (inr g);
      }

  -- The entry is freed, and the others are the list.
  free-Represents :
      (xs ys : Cells) (r : Memory × Ptr × Ptr)
      → Represents m l (xs ++ (a, d) ∷ ys)
      → length (xs ++ ys) + 1 < 2 ^ 32
      → Around xs ys
      → Unlinked m a xs ys r
      → Represents
          (write r.0 a none)
          (record { first = r.1; last = r.2; size = size_down l.size })
          (xs ++ ys)
  free-Represents xs ys r v bound w u =
      let kept = λ (b : ℕ) (n : b ≢ a). write_other r.0 a none b n in
      record {
        first_is = u.first_is;
        last_is = u.last_is;
        size_is = let s = w.size_is in let t = length-append xs ys in ground (arith, s, t);
        nodes =
            Nodes-append (write r.0 a none).nodes none none xs ys
              (Nodes-frame r.0.nodes (write r.0 a none).nodes none (head_or ys none) xs
                (λ b h. kept b (λ e. w.off_xs (At-same xs e h))) u.front)
              (Nodes-frame r.0.nodes (write r.0 a none).nodes (last_or xs none) none ys
                (λ b h. kept b (λ e. w.off_ys (At-same ys e h))) u.back);
        apart = Apart-append xs ys w.apart_xs w.apart_ys w.disjoint;
        used = λ b h.
            let old = v.used b (elim (At-append b xs ys h) [
              | inl g ↦ At-left b xs ((a, d) ∷ ys) g
              | inr g ↦ At-right b xs ((a, d) ∷ ys) (inr g)
            ]) in
            rw u.unused_same old;
      }

  -- An entry is taken out of the list.
  pub remove_entry_lem :
      (xs ys : Cells)
      → Represents m l (xs ++ (a, d) ∷ ys)
      → length (xs ++ (a, d) ∷ ys) < 2 ^ 32
      → (m' : Memory) × (l' : LList) × (llist_remove_entry m l (some a) ≡ some (m', l'))
        × Represents m' l' (xs ++ ys)
        × (m'.nodes a ≡ none)
  unfolding llist_remove_entry load
  remove_entry_lem xs ys v bound =
      let w = split-Around xs ys v in
      let at = (Nodes-split m.nodes none none xs ((a, d) ∷ ys) v.nodes).1.0 in
      let (r, e, u) = unlink_lem xs ys w in
      let f = free_ok r.0 a (node xs ys) (u.kept ∙ at) in
      let small : length (xs ++ ys) + 1 < 2 ^ 32 =
        let s = length-append xs ys in
        let t = length-append xs ((a, d) ∷ ys) in ground (arith, s, t, bound) in
      (
        write r.0 a none,
        record { first = r.1; last = r.2; size = size_down l.size },
        rw (at, e, f) refl,
        free-Represents xs ys r v small w u,
        write_self r.0 a none,
      )
