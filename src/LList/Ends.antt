-- ===== src/LList/Ends.antt =====
-- The operations at the two ends of a list.
use renameutils.Common.{
  ℕ, ◌+◌, ◌<◌, ◌^◌, true, false, [], ◌∷◌, ◌++◌, none, some, ◌≡◌, inl, inr, refl, sym, ap, ◌∙◌,
  arith, ==_iff, ◌==◌, length, length-append,
}
use renameutils.LList.{
  Ptr, LNode, LList, Memory, write, load, malloc, set_next, set_previous, free, size_up, size_down,
  cut_front, llist_add_first, llist_add_last, llist_remove_first,
}
use renameutils.LList.Segments.{
  Cells, At, At-same, Nodes, Nodes-frame, Nodes-append, Represents, last_or-append, At-append,
  Apart-append,
}
use renameutils.LList.Links.{write_self, write_other, free_ok, set_next_last, set_previous_first}

module _ (m : Memory) (l : LList) where
  -- The new node has an address of its own.
  fresh_off : (cs : Cells) → Represents m l cs → At m.unused cs → ⊥
  fresh_off cs v h = let u = v.used m.unused h in ground (arith, u)

  malloc-Nodes :
      (n : LNode) (prev stop : Ptr) (cs : Cells)
      → (At m.unused cs → ⊥)
      → Nodes m.nodes prev stop cs
      → Nodes (malloc m n).nodes prev stop cs
  malloc-Nodes n prev stop cs off =
      Nodes-frame m.nodes (malloc m n).nodes prev stop cs
        (λ b h. write_other m m.unused (some n) b (λ e. off (At-same cs e h)))

  pub add_first_lem :
      (d : ℕ) (cs : Cells)
      → Represents m l cs
      → length cs + 1 < 2 ^ 32
      → (m' : Memory) × (l' : LList) × (llist_add_first m l d ≡ some (m', l'))
        × Represents m' l' ((m.unused, d) ∷ cs)
  unfolding llist_add_first
  add_first_lem d [] v bound =
      let n : LNode = record { datum = d; next = none; previous = none } in
      let s = v.size_is in
      let empty' : (l.size == 0) ≡ true = ground (arith, s, ==_iff l.size 0) in
      (
        malloc m n,
        record { first = some m.unused; last = some m.unused; size = size_up l.size },
        rw empty' refl,
        record {
          first_is = refl;
          last_is = refl;
          size_is = ground (arith, s);
          nodes = (write_self m m.unused (some n), tt);
          apart = ((λ h. h), tt);
          used = λ b h. ground (arith, h);
        },
      )
  add_first_lem d ((b, e) ∷ cs) v bound =
      let n : LNode = record { datum = d; next = l.first; previous = none } in
      let s = v.size_is in
      let full : (l.size == 0) ≡ false = ground (arith, s, ==_iff l.size 0) in
      let off = fresh_off ((b, e) ∷ cs) v in
      let old = malloc-Nodes n none none ((b, e) ∷ cs) off v.nodes in
      let (m', w, n', within) =
        set_previous_first (malloc m n) none (some m.unused) none b e cs old v.apart in
      let w' : set_previous (malloc m n) l.first (some m.unused) ≡ some m' =
        ap (λ p. set_previous (malloc m n) p (some m.unused)) v.first_is ∙ w in
      (
        m',
        record l { first = some m.unused; size = size_up l.size },
        rw (full, w') refl,
        record {
          first_is = refl;
          last_is = v.last_is;
          size_is = ground (arith, s, bound);
          nodes = (
            within.outside m.unused off
                ∙ write_self m m.unused (some n)
                ∙ ap (λ p. some (record { datum = d; next = p; previous = none })) v.first_is,
            n',
          );
          apart = (off, v.apart);
          used = λ k h. rw within.unused_same (elim h [
            | inl g ↦ ground (arith, g)
            | inr g ↦ let u = v.used k g in ground (arith, u)
          ]);
        },
      )

  pub add_last_lem :
      (d : ℕ) (cs : Cells)
      → Represents m l cs
      → length cs + 1 < 2 ^ 32
      → (m' : Memory) × (l' : LList) × (llist_add_last m l d ≡ some (m', l'))
        × Represents m' l' (cs ++ (m.unused, d) ∷ [])
  unfolding llist_add_last
  add_last_lem d [] v bound =
      let n : LNode = record { datum = d; next = none; previous = none } in
      let s = v.size_is in
      let empty' : (l.size == 0) ≡ true = ground (arith, s, ==_iff l.size 0) in
      (
        malloc m n,
        record { first = some m.unused; last = some m.unused; size = size_up l.size },
        rw empty' refl,
        record {
          first_is = refl;
          last_is = refl;
          size_is = ground (arith, s);
          nodes = (write_self m m.unused (some n), tt);
          apart = ((λ h. h), tt);
          used = λ b h. ground (arith, h);
        },
      )
  add_last_lem d ((b, e) ∷ cs) v bound =
      let n : LNode = record { datum = d; next = none; previous = l.last } in
      let s = v.size_is in
      let full : (l.size == 0) ≡ false = ground (arith, s, ==_iff l.size 0) in
      let off = fresh_off ((b, e) ∷ cs) v in
      let old = malloc-Nodes n none none ((b, e) ∷ cs) off v.nodes in
      let (m', w, n', within) =
        set_next_last (malloc m n) none none (some m.unused) b e cs old v.apart in
      let w' : set_next (malloc m n) l.last (some m.unused) ≡ some m' =
        ap (λ p. set_next (malloc m n) p (some m.unused)) v.last_is ∙ w in
      (
        m',
        record l { last = some m.unused; size = size_up l.size },
        rw (full, w') refl,
        record {
          first_is = v.first_is;
          last_is = sym (last_or-append ((b, e) ∷ cs) ((m.unused, d) ∷ []) none);
          size_is =
              let t = length-append ((b, e) ∷ cs) ((m.unused, d) ∷ []) in
              ground (arith, s, bound, t);
          nodes = Nodes-append m'.nodes none none ((b, e) ∷ cs) ((m.unused, d) ∷ []) n' (
            within.outside m.unused off
                ∙ write_self m m.unused (some n)
                ∙ ap (λ p. some (record { datum = d; next = none; previous = p })) v.last_is,
            tt,
          );
          apart =
              Apart-append ((b, e) ∷ cs) ((m.unused, d) ∷ []) v.apart ((λ h. h), tt)
                (λ k h g. elim g [ inl at ↦ off (At-same ((b, e) ∷ cs) at h) | inr g' ↦ g' ]);
          used = λ k h.
              rw within.unused_same (elim (At-append k ((b, e) ∷ cs) ((m.unused, d) ∷ []) h) [
                | inl g ↦ let u = v.used k g in ground (arith, u)
                | inr g ↦ ground (arith, g)
              ]);
        },
      )

  -- The first entry is taken out, and its datum returned.
  pub remove_first_lem :
      (a d : ℕ) (cs : Cells)
      → Represents m l ((a, d) ∷ cs)
      → length cs + 1 < 2 ^ 32
      → (m' : Memory) × (l' : LList) × (llist_remove_first m l ≡ some (some d, m', l'))
        × Represents m' l' cs
  unfolding llist_remove_first load cut_front
  remove_first_lem a d [] v bound =
      let n : LNode = record { datum = d; next = none; previous = none } in
      let s = v.size_is in
      let full : (l.size == 0) ≡ false = ground (arith, s, ==_iff l.size 0) in
      let at : load m l.first ≡ some n = rw v.first_is v.nodes.0 in
      let f : free m l.first ≡ some (write m a none) =
        ap (free m) v.first_is ∙ free_ok m a n v.nodes.0 in
      (
        write m a none,
        record { first = none; last = none; size = size_down l.size },
        rw (full, at, f) refl,
        record {
          first_is = refl;
          last_is = refl;
          size_is = ground (arith, s);
          nodes = tt;
          apart = tt;
          used = λ b h. absurd h;
        },
      )
  remove_first_lem a d ((b, e) ∷ cs) v bound =
      let n : LNode = record { datum = d; next = some b; previous = none } in
      let s = v.size_is in
      let full : (l.size == 0) ≡ false = ground (arith, s, ==_iff l.size 0) in
      let at : load m l.first ≡ some n = rw v.first_is v.nodes.0 in
      let (m', w, n', within) =
        set_previous_first m (some a) none none b e cs v.nodes.1 v.apart.1 in
      let f : free m' l.first ≡ some (write m' a none) =
        ap (free m') v.first_is ∙ free_ok m' a n (within.outside a v.apart.0 ∙ v.nodes.0) in
      (
        write m' a none,
        record { first = some b; last = l.last; size = size_down l.size },
        rw (full, at, w, f) refl,
        record {
          first_is = refl;
          last_is = v.last_is;
          size_is = ground (arith, s, bound);
          nodes =
              Nodes-frame m'.nodes (write m' a none).nodes none none ((b, e) ∷ cs)
                (λ k h. write_other m' a none k (λ g. v.apart.0 (At-same ((b, e) ∷ cs) g h))) n';
          apart = v.apart.1;
          used = λ k h. rw within.unused_same (v.used k (inr h));
        },
      )
