-- ===== src/Plan/Resolve/Sound.antt =====
-- Plans that are safe and linked, and steps that keep the names of their specs.
use renameutils.Common.{
  ℕ, ◌<◌, ◌≤◌, false, List, [], ◌∷◌, ◌≡◌, ◌≢◌, inl, inr, refl, sym, ap, ◌∙◌, arith, Bytes, ==_iff,
}
use renameutils.Plan.{FileSpec, Planning, is_unchecked, refuse, new_exists}
use renameutils.Plan.Narrow.{In, IsUnchecked}
use renameutils.Plan.Files.{FileSet, Safe, moved}
use renameutils.Plan.Chained.{Chained, Chained-frame}
use renameutils.Plan.Resolve.{Resolving}
use renameutils.Plan.Resolve.Follow.{NextOnly}

-- A plan that is safe on `files`, and whose links are in order.
pub record IsSound (files : FileSet) (r : Resolving) : Type 0 where
  pub safe :
      Safe
        (λ j. (r.planning.specs j).old_name)
        (λ j. (r.planning.specs j).new_name)
        files
        r.planning.ok
  pub chained : Chained r.planning.specs [] r.planning.ok
  pub closed : (j : ℕ) → In j r.planning.ok → is_unchecked (r.planning.specs j).status ≡ false
  pub small : (j : ℕ) → In j r.planning.ok → j < r.fresh

-- `Safe` reads the names of the list alone.
pub Safe-same :
    (old new old' new' : ℕ → Bytes) (files : FileSet) (is : List ℕ)
    → ((j : ℕ) → In j is → old' j ≡ old j)
    → ((j : ℕ) → In j is → new' j ≡ new j)
    → Safe old new files is
    → Safe old' new' files is
unfolding Safe
Safe-same old new old' new' files [] a b s = tt
Safe-same old new old' new' files (i ∷ is) a b (there, free, s) =
    rw (a i (inl refl), b i (inl refl))
      (
        there,
        free,
        Safe-same old new old' new' (moved files (old i) (new i)) is (λ j h. a j (inr h))
            (λ j h. b j (inr h)) s,
      )

-- What a step keeps of the specs of the list, and what it changes.
pub record Grows (r r' : Resolving) : Type 0 where
  pub fresh_more : r.fresh ≤ r'.fresh
  pub old_same :
      (j : ℕ) → j < r.fresh → (r'.planning.specs j).old_name ≡ (r.planning.specs j).old_name
  pub new_same :
      (j : ℕ) → j < r.fresh → (r'.planning.specs j).new_name ≡ (r.planning.specs j).new_name
  pub still : (j : ℕ) → j < r.fresh → IsUnchecked r'.planning j → IsUnchecked r.planning j

pub Grows-trans : {a b c : Resolving} → Grows a b → Grows b c → Grows a c
Grows-trans {a} {b} {c} x y = record {
  fresh_more = let m = x.fresh_more in let n = y.fresh_more in omega arith;
  old_same = λ j h. y.old_same j (let m = x.fresh_more in omega arith) ∙ x.old_same j h;
  new_same = λ j h. y.new_same j (let m = x.fresh_more in omega arith) ∙ x.new_same j h;
  still = λ j h u. x.still j h (y.still j (let m = x.fresh_more in omega arith) u);
}

-- A plan whose accepted specs are those of a sound plan.
record SameSpec (a b : FileSpec) : Type 0 where
  old_same : b.old_name ≡ a.old_name
  new_same : b.new_name ≡ a.new_name
  prev_same : b.prev_spec ≡ a.prev_spec
  next_same : b.next_spec ≡ a.next_spec
  status_same : b.status ≡ a.status

IsSound-frame :
    (files : FileSet) (r r' : Resolving)
    → r'.planning.ok ≡ r.planning.ok
    → r'.fresh ≡ r.fresh
    → ((j : ℕ) → In j r.planning.ok → SameSpec (r.planning.specs j) (r'.planning.specs j))
    → IsSound files r
    → IsSound files r'
IsSound-frame files r r' e f same s = record {
  safe = rw e (
      Safe-same (λ j. (r.planning.specs j).old_name) (λ j. (r.planning.specs j).new_name)
        (λ j. (r'.planning.specs j).old_name) (λ j. (r'.planning.specs j).new_name) files
        r.planning.ok (λ j h. (same j h).old_same) (λ j h. (same j h).new_same) s.safe);
  chained = rw e (
      Chained-frame r.planning.specs r'.planning.specs [] r.planning.ok
        (λ j h. (same j h).status_same) (λ j h. (same j h).prev_same)
        (λ d h. elim h [ inl g ↦ (same d g).next_same | inr g ↦ absurd g ]) s.chained);
  closed = λ j h.
      let g : In j r.planning.ok = rw e at h in
      ap is_unchecked (same j g).status_same ∙ s.closed j g;
  small = λ j h. let g : In j r.planning.ok = rw e at h in rw f (s.small j g);
}

abbrev pub refused : Resolving → ℕ → Resolving
refused r i = record r { planning = refuse r.planning i new_exists }

pub refuse-IsSound :
    (files : FileSet) (r : Resolving) (i : ℕ)
    → IsSound files r
    → IsUnchecked r.planning i
    → IsSound files (refused r i)
refuse-IsSound files r i s u =
    IsSound-frame files r (refused r i) refl refl
      (λ j h.
        let c = s.closed j h in
        let n : j ≢ i = λ e. ground (arith, e, c, u) in
        record {
          old_same = ground (arith, ==_iff j i);
          new_same = ground (arith, ==_iff j i);
          prev_same = ground (arith, ==_iff j i);
          next_same = ground (arith, ==_iff j i);
          status_same = ground (arith, ==_iff j i);
        })
      s

pub refuse-Grows : (r : Resolving) (i : ℕ) → Grows r (refused r i)
refuse-Grows r i = record {
  fresh_more = omega arith;
  old_same = λ j h. ground (arith, ==_iff j i);
  new_same = λ j h. ground (arith, ==_iff j i);
  still = λ j h. ground (arith, ==_iff j i);
}

pub refuse_closed :
    (r : Resolving) (i : ℕ) → is_unchecked ((refused r i).planning.specs i).status ≡ false
refuse_closed r i = ground (arith, ==_iff i i)

pub NextOnly-IsSound :
    (files : FileSet) (r : Resolving) (p : Planning)
    → NextOnly r.planning p
    → IsSound files r
    → IsSound files (record r { planning = p })
NextOnly-IsSound files r p n s =
    IsSound-frame files r (record r { planning = p }) n.ok_same refl
      (λ j h. record {
        old_same = n.old_same j;
        new_same = n.new_same j;
        prev_same = n.prev_same j;
        next_same = n.next_same j (s.closed j h);
        status_same = n.status_same j;
      })
      s

pub NextOnly-Grows :
    (r : Resolving) (p : Planning) → NextOnly r.planning p → Grows r (record r { planning = p })
NextOnly-Grows r p n = record {
  fresh_more = omega arith;
  old_same = λ j h. n.old_same j;
  new_same = λ j h. n.new_same j;
  still = λ j h u. sym (ap is_unchecked (n.status_same j)) ∙ u;
}

pub Grows-refl : (r : Resolving) → Grows r r
Grows-refl r = record {
  fresh_more = omega arith;
  old_same = λ j h. refl;
  new_same = λ j h. refl;
  still = λ j h u. u;
}
