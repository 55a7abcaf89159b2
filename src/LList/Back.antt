-- ===== src/LList/Back.antt =====
-- `llist_remove_last`.
use renameutils.Common.{
  ℕ, ◌+◌, ◌<◌, ◌^◌, false, [], ◌∷◌, ◌++◌, none, some, ◌≡◌, inl, refl, ap, ◌∙◌, arith, ==_iff, ◌==◌,
  length, length-append,
}
use renameutils.LList.{
  Ptr, LNode, LList, Memory, write, load, set_next, free, size_down, cut_back, llist_remove_last,
}
use renameutils.LList.Segments.{
  Cells, At, At-same, last_or, Nodes-frame, Nodes-split, Represents, last_or-append, At-left,
  Apart-split,
}
use renameutils.LList.Links.{write_other, free_ok, set_next_last}

last_or-some : (b : ℕ) (cs : Cells) → (z : ℕ) × (last_or cs (some b) ≡ some z)
last_or-some b [] = (b, refl)
last_or-some b ((c, f) ∷ cs) = last_or-some c cs

cut_back-some :
    (m m' : Memory) (z : ℕ) (p first : Ptr)
    → p ≡ some z
    → set_next m p none ≡ some m'
    → cut_back m p first ≡ some (m', first)
unfolding cut_back
cut_back-some m m' z p first e w =
    let w' : set_next m (some z) none ≡ some m' = rw e at w in rw (e, w') refl

module _ (m : Memory) (l : LList) where
  -- The last entry is taken out, and its datum returned.
  pub remove_last_lem :
      (a d : ℕ) (cs : Cells)
      → Represents m l (cs ++ (a, d) ∷ [])
      → length cs + 1 < 2 ^ 32
      → (m' : Memory) × (l' : LList) × (llist_remove_last m l ≡ some (some d, m', l'))
        × Represents m' l' cs
  unfolding llist_remove_last load cut_back
  remove_last_lem a d [] v bound =
      let n : LNode = record { datum = d; next = none; previous = none } in
      let s = v.size_is in
      let full : (l.size == 0) ≡ false = ground (arith, s, ==_iff l.size 0) in
      let at : load m l.last ≡ some n = rw v.last_is v.nodes.0 in
      let f : free m l.last ≡ some (write m a none) =
        ap (free m) v.last_is ∙ free_ok m a n v.nodes.0 in
      (
        write m a none,
        record { first = none; last = none; size = size_down l.size },
        rw (full, at, f) refl,
        record {
          first_is = refl;
          last_is = refl;
          size_is = ground (arith, s);
          nodes = tt;
          apart = tt;
          used = λ b h. absurd h;
        },
      )
  remove_last_lem a d ((b, e) ∷ cs) v bound =
      let before = last_or cs (some b) in
      let n : LNode = record { datum = d; next = none; previous = before } in
      let s = v.size_is ∙ length-append ((b, e) ∷ cs) ((a, d) ∷ []) in
      let full : (l.size == 0) ≡ false = ground (arith, s, ==_iff l.size 0) in
      let (front, back) = Nodes-split m.nodes none none ((b, e) ∷ cs) ((a, d) ∷ []) v.nodes in
      let (px, py, dis) = Apart-split ((b, e) ∷ cs) ((a, d) ∷ []) v.apart in
      let last_is = v.last_is ∙ last_or-append ((b, e) ∷ cs) ((a, d) ∷ []) none in
      let at : load m l.last ≡ some n = rw last_is back.0 in
      let off = λ (h : At a ((b, e) ∷ cs)). dis a h (inl refl) in
      let (m', w, n', within) = set_next_last m none (some a) none b e cs front px in
      let (z, ez) = last_or-some b cs in
      let c : cut_back m before l.first ≡ some (m', l.first) =
        cut_back-some m m' z before l.first ez w in
      let f : free m' l.last ≡ some (write m' a none) =
        ap (free m') last_is ∙ free_ok m' a n (within.outside a off ∙ back.0) in
      (
        write m' a none,
        record { first = l.first; last = before; size = size_down l.size },
        rw (full, at, c, f) refl,
        record {
          first_is = v.first_is;
          last_is = refl;
          size_is = ground (arith, s, bound);
          nodes =
              Nodes-frame m'.nodes (write m' a none).nodes none none ((b, e) ∷ cs)
                (λ k h. write_other m' a none k (λ g. off (At-same ((b, e) ∷ cs) g h))) n';
          apart = px;
          used = λ k h. rw within.unused_same (v.used k (At-left k ((b, e) ∷ cs) ((a, d) ∷ []) h));
        },
      )
