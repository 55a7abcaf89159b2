-- ===== src/Plan/Resolve/Group.antt =====
-- A circular set of renames that goes through a temporary name is safe, and leaves the names as they
-- are.
use renameutils.Common.{
  ℕ, true, false, List, [], ◌∷◌, ◌++◌, ◌≡◌, ◌≢◌, refl, sym, ap, ◌∙◌, arith, Bytes, str_eq_iff,
}
use renameutils.Plan.Files.{FileSet, moved, final, Safe, final-snoc, Safe-snoc}
use renameutils.Plan.Resolve.Marks.{backwards}

module _ (old new : ℕ → Bytes) where
  Safe-append :
      (files : FileSet) (is js : List ℕ)
      → Safe old new files is
      → Safe old new (final old new files is) js
      → Safe old new files (is ++ js)
  unfolding Safe final
  Safe-append files [] js s t = t
  Safe-append files (i ∷ is) js (a, b, s) t =
      (a, b, Safe-append (moved files (old i) (new i)) is js s t)

  module _ (files : FileSet) (tmp_name : Bytes) (tmp_free : files tmp_name ≡ false) where
    -- What exists while `name` has given way to the temporary name.
    abbrev hole : Bytes → FileSet
    hole name = moved files name tmp_name

    hole_step :
        (name h x : Bytes)
        → files name ≡ true
        → files h ≡ true
        → name ≢ h
        → moved (hole h) name h x ≡ hole name x
    hole_step name h x there there' n =
        ground (arith, str_eq_iff x h, str_eq_iff x name, str_eq_iff x tmp_name)

    hole_end : (h x : Bytes) → files h ≡ true → moved (hole h) tmp_name h x ≡ files x
    hole_end h x there = ground (arith, str_eq_iff x h, str_eq_iff x tmp_name)

    module _ (s1 : ℕ) (there_s1 : files (old s1) ≡ true) where
      -- Each new name, from that of `s2` on, is the old name of the next, and the last is that of `s1`.
      abbrev pub Circle : ℕ → List ℕ → Type 0
      Circle s2 [] = new s2 ≡ old s1
      Circle s2 (k ∷ ks) = (new s2 ≡ old k) × (files (old k) ≡ true) × (old k ≢ new k) × Circle k ks

      Circle-there : (s2 : ℕ) (ks : List ℕ) → Circle s2 ks → files (new s2) ≡ true
      Circle-there s2 [] e = rw e there_s1
      Circle-there s2 (k ∷ ks) (e, there, n, c) = rw e there

      -- Done from the last to the first, they find their way free.
      ring-Safe :
          (s2 : ℕ) (ks : List ℕ)
          → Circle s2 ks
          → Safe old new (hole (old s1)) (backwards ks)
            × ((x : Bytes) → final old new (hole (old s1)) (backwards ks) x ≡ hole (new s2) x)
      unfolding Safe final
      ring-Safe s2 [] e = (tt, λ x. rw e refl)
      ring-Safe s2 (k ∷ ks) (e, there, n, c) =
          let (s, same) = ring-Safe k ks c in
          let there' = Circle-there k ks c in
          let here : Path FileSet (final old new (hole (old s1)) (backwards ks)) (hole (new k)) =
            λ t x. same x t in
          (
            Safe-snoc old new (hole (old s1)) (backwards ks) k s
                (same (old k)
                  ∙ ground (arith, str_eq_iff (old k) (new k), str_eq_iff (old k) tmp_name))
                (same (new k)
                  ∙ ground (arith, str_eq_iff (new k) (new k), str_eq_iff (new k) tmp_name)),
            λ x.
                final-snoc old new (hole (old s1)) (backwards ks) k x
                ∙ ap (λ f. moved f (old k) (new k) x) here
                ∙ hole_step (old k) (new k) x there there' n
                ∙ ap (λ name. hole name x) (sym e),
          )

      pub group-Safe :
          (copy extra : ℕ) (ks oks : List ℕ)
          → Circle s1 ks
          → old extra ≡ old s1
          → new extra ≡ tmp_name
          → old copy ≡ tmp_name
          → new copy ≡ new s1
          → Safe old new files oks
          → Safe old new files (extra ∷ backwards ks ++ copy ∷ oks)
      unfolding Safe final
      group-Safe copy extra ks oks c oe ne oc nc safe =
          let (s, same) = ring-Safe s1 ks c in
          let there = Circle-there s1 ks c in
          let here : Path FileSet (final old new (hole (old s1)) (backwards ks)) (hole (new s1)) =
            λ t x. same x t in
          let after : Path FileSet (moved (hole (new s1)) tmp_name (new s1)) files =
            λ t x. hole_end (new s1) x there t in
          let last : Safe old new (hole (new s1)) (copy ∷ oks) =
            rw (oc, nc)
              (
                ground (arith, str_eq_iff tmp_name tmp_name),
                ground (arith, str_eq_iff (new s1) tmp_name, str_eq_iff (new s1) (new s1)),
                rw after safe,
              ) in
          rw (oe, ne)
            (
              there_s1,
              tmp_free,
              Safe-append (hole (old s1)) (backwards ks) (copy ∷ oks) s (rw here last),
            )
