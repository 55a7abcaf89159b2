-- ===== src/Plan/Safety.antt =====
-- The order that `topologic_sort` finds is safe: no rename of it overwrites a file.
use mathlib.Core.Bool.{true≢false}
use renameutils.Common.{
  ℕ, zero, suc, Bool, true, false, List, [], ◌∷◌, some, ◌≡◌, ◌≢◌, ◌⊎◌, inl, inr, refl, sym, ap, ◌∙◌,
  arith, Bytes, length, str_eq_iff, Bool-cases, Option-cases,
}
use renameutils.Dictionary.{Dictionary}
use renameutils.Plan.{Planning, is_unchecked, accept, exists_here}
use renameutils.Plan.Narrow.{In, IsUnchecked, Narrows-refl}
use renameutils.Plan.Files.{FileSet, final, Safe}
use renameutils.Plan.Sort.{
  Sorting, find_free, link, take_free, sort_round, sort_rounds, topologic_sort,
}
use renameutils.Plan.Rounds.{round_stay, round_take, rounds_more, rounds_done}
use renameutils.Plan.Linked.{accept-LinkInv, empty-LinkInv}
use renameutils.Plan.Invariant as I
use renameutils.Plan.Invariant.{
  Ready, NoDup, accept-Narrows, accept_off, accept_on, link-specs, link-Narrows,
}

module _ (dict : Dictionary) (files : FileSet) (renames : List ℕ) (p₀ : Planning)
    (ready : Ready files renames p₀) where
  open dict use {Map, empty, get, put, remove}

  abbrev old : ℕ → Bytes
  old = I.old dict files renames p₀ ready

  abbrev new : ℕ → Bytes
  new = I.new dict files renames p₀ ready

  abbrev now : Planning → FileSet
  now = I.now dict files renames p₀ ready

  abbrev pub Inv : Map → Planning → Type 0
  Inv = I.Inv dict files renames p₀ ready

  abbrev Left : List ℕ → Planning → List ℕ → Map → Planning → Type 0
  Left = I.Left dict files renames p₀ ready

  abbrev Kept : List ℕ → Sorting dict → List ℕ → Sorting dict → Type 0
  Kept is s pending s' = Left is s.planning pending s'.available s'.planning

  -- What a loop is given.
  record Start (is : List ℕ) (s : Sorting dict) : Type 0 where
    inv : Inv s.available s.planning
    known : (j : ℕ) → In j is → In j renames
    waiting : (j : ℕ) → In j is → IsUnchecked s.planning j
    once : NoDup is

  -- A spec that is still to come stays unchecked when another one is taken.
  take_free-others :
      (s : Sorting dict) (i depend j : ℕ)
      → j ≢ i
      → IsUnchecked s.planning j
      → IsUnchecked (take_free dict s i depend).planning j
  unfolding take_free
  take_free-others s i depend j n u =
      accept_on (link s.planning i depend) i j n
        (ap is_unchecked (link-specs s.planning i depend j) ∙ u)

  Start-rest : (i : ℕ) (is : List ℕ) (s : Sorting dict) → Start (i ∷ is) s → Start is s
  Start-rest i is s t = record {
    inv = t.inv;
    known = λ j h. t.known j (inr h);
    waiting = λ j h. t.waiting j (inr h);
    once = t.once.1;
  }

  Start-take :
      (i depend : ℕ) (is : List ℕ) (s : Sorting dict)
      → Start (i ∷ is) s
      → get s.available (s.planning.specs i).new_name ≡ some depend
      → Start is (take_free dict s i depend)
  Start-take i depend is s t e = record {
    inv =
        I.take_free-Inv dict files renames p₀ ready s i depend t.inv (t.known i (inl refl))
          (t.waiting i (inl refl)) e;
    known = λ j h. t.known j (inr h);
    waiting = λ j h.
        take_free-others s i depend j (λ same. t.once.0 (rw same at h)) (t.waiting j (inr h));
    once = t.once.1;
  }

  sort_round-Left :
      (is : List ℕ) (s : Sorting dict)
      → Start is s
      → Kept is s (sort_round dict is s).0 (sort_round dict is s).2
  unfolding sort_round
  sort_round-Left [] s t = record {
    inv = t.inv;
    frame = λ j n u. u;
    from_list = λ j h. h;
    waiting = λ j h. absurd h;
    once = tt;
  }
  sort_round-Left (i ∷ is) s t =
      elim (Option-cases (get s.available (s.planning.specs i).new_name)) [
        | inl none' ↦
            let r = sort_round dict is s in
            rw (round_stay dict i is s none') (
              I.stay-Left dict files renames p₀ ready i is s.planning r.0 r.2.available r.2.planning
                t.once.0 (t.waiting i (inl refl)) (sort_round-Left is s (Start-rest i is s t)))
        | inr (depend, found) ↦
            let s' = take_free dict s i depend in
            let r = sort_round dict is s' in
            rw (round_take dict i is s depend found) (
              I.leave-Left dict files renames p₀ ready i is s.planning s'.planning r.0 r.2.available
                r.2.planning (take_free-others s i depend)
                (sort_round-Left is s' (Start-take i depend is s t found)))
      ]

  Start-next :
      (is pending : List ℕ) (s s' : Sorting dict)
      → Start is s
      → Kept is s pending s'
      → Start pending s'
  Start-next is pending s s' t l = record {
    inv = l.inv;
    known = λ j h. t.known j (l.from_list j h);
    waiting = l.waiting;
    once = l.once;
  }

  sort_rounds-Start :
      (fuel : ℕ) (is : List ℕ) (s : Sorting dict)
      → Start is s
      → Start (sort_rounds dict fuel is s).0 (sort_rounds dict fuel is s).1
  unfolding sort_rounds
  sort_rounds-Start zero is s t = t
  sort_rounds-Start (suc fuel) is s t =
      let next = Start-next is _ s _ t (sort_round-Left is s t) in
      elim (Bool-cases (sort_round dict is s).1) [
        | inl more ↦ rw (rounds_more dict fuel is s more) (sort_rounds-Start fuel _ _ next)
        | inr done ↦ rw (rounds_done dict fuel is s done) next
      ]

  module _ (file_exists : Bytes → Bool) (work_directory : Bytes)
      (agree : (n : Bytes) → exists_here file_exists work_directory n ≡ files n) where
    abbrev first : List ℕ → Sorting dict → List ℕ × Sorting dict
    first = find_free dict file_exists work_directory

    abbrev accepted : Sorting dict → ℕ → Sorting dict
    accepted s i = record {
      available = (put s.available (s.planning.specs i).old_name i).1;
      planning = accept s.planning i;
    }

    free_off :
        (i : ℕ) (is : List ℕ) (s : Sorting dict)
        → is_unchecked (s.planning.specs i).status ≡ false
        → first (i ∷ is) s ≡ first is s
    unfolding find_free
    free_off i is s e = rw (find_free, e) refl

    free_stay :
        (i : ℕ) (is : List ℕ) (s : Sorting dict)
        → IsUnchecked s.planning i
        → files (s.planning.specs i).new_name ≡ true
        → first (i ∷ is) s ≡ (i ∷ (first is s).0, (first is s).1)
    unfolding find_free
    free_stay i is s e there = rw (find_free, e, agree (s.planning.specs i).new_name, there) refl

    free_take :
        (i : ℕ) (is : List ℕ) (s : Sorting dict)
        → IsUnchecked s.planning i
        → files (s.planning.specs i).new_name ≡ false
        → first (i ∷ is) s ≡ first is (accepted s i)
    unfolding find_free
    free_take i is s e gone = rw (find_free, e, agree (s.planning.specs i).new_name, gone) refl

    get-add :
        (a : Map) (taken n : Bytes) (i k : ℕ)
        → get (put a taken i).1 n ≡ some k
        → (n ≡ taken) ⊎ (get a n ≡ some k)
    get-add a taken n i k h =
        let e = sym (dict.get-put a taken n i) ∙ h in ground (arith, str_eq_iff n taken)

    accepted-Inv :
        (s : Sorting dict) (i : ℕ)
        → Inv s.available s.planning
        → In i renames
        → IsUnchecked s.planning i
        → files (s.planning.specs i).new_name ≡ false
        → Inv (accepted s i).available (accepted s i).planning
    accepted-Inv s i v hi ui gone =
        let p = s.planning in
        let gone' : files (new i) ≡ false = rw (v.narrows.new_same i) at gone in
        I.accept-Inv dict files renames p₀ ready s.available _ p (accept p i) i v hi ui
          (v.clear i hi ui gone') (accept-Narrows p i) (λ j. accept_off p i j) refl
          (λ j hj uj n f e.
            n (ready.new_distinct j i hj hi (v.narrows.still j uj) (v.narrows.still i ui) e))
          (λ n k h.
            let here =
              rw (v.narrows.old_same i) at (get-add s.available (p.specs i).old_name n i k h) in
            let there : files n ≡ true = elim here [
              | inl e ↦ rw e (ready.old_there i hi (v.narrows.still i ui))
              | inr known ↦ (v.free n k known).1
            ] in
            (λ e. true≢false (sym there ∙ ap files e ∙ gone'), here))
          (λ idle. accept-LinkInv dict s.available p i (v.links idle) ui)

    find_free-Left :
        (is : List ℕ) (s : Sorting dict)
        → Inv s.available s.planning
        → ((j : ℕ) → In j is → In j renames)
        → NoDup is
        → Kept is s (first is s).0 (first is s).1
    unfolding find_free
    find_free-Left [] s v known nd = record {
      inv = v;
      frame = λ j n u. u;
      from_list = λ j h. h;
      waiting = λ j h. absurd h;
      once = tt;
    }
    find_free-Left (i ∷ is) s v known nd =
        let rest = λ (j : ℕ) (h : In j is). known j (inr h) in
        elim (Bool-cases (is_unchecked (s.planning.specs i).status)) [
          | inr off ↦
              let r = first is s in
              rw (free_off i is s off) (
                I.leave-Left dict files renames p₀ ready i is s.planning s.planning r.0
                  r.1.available r.1.planning (λ j n u. u) (find_free-Left is s v rest nd.1))
          | inl on ↦ elim (Bool-cases (files (s.planning.specs i).new_name)) [
            | inl there ↦
                let r = first is s in
                rw (free_stay i is s on there) (
                  I.stay-Left dict files renames p₀ ready i is s.planning r.0 r.1.available
                    r.1.planning nd.0 on (find_free-Left is s v rest nd.1))
            | inr gone ↦
                let s' = accepted s i in
                let r = first is s' in
                let v' = accepted-Inv s i v (known i (inl refl)) on gone in
                rw (free_take i is s on gone) (
                  I.leave-Left dict files renames p₀ ready i is s.planning s'.planning r.0
                    r.1.available r.1.planning (accept_on s.planning i)
                    (find_free-Left is s' v' rest nd.1))
          ]
        ]

    pub sort-Inv :
        p₀.ok ≡ []
        → NoDup renames
        → Inv
            (topologic_sort dict file_exists work_directory renames p₀).1.available
            (topologic_sort dict file_exists work_directory renames p₀).1.planning
    unfolding topologic_sort final Safe
    sort-Inv fresh nd =
        let s : Sorting dict = record { available = empty; planning = p₀ } in
        let v : Inv empty p₀ = record {
          narrows = Narrows-refl p₀;
          safe = rw fresh tt;
          present = λ j h u. rw fresh (ready.old_there j h u);
          clear = λ j h u f. rw fresh f;
          free = λ n k h. ground (arith, dict.get-empty n);
          links = λ idle. empty-LinkInv dict p₀ fresh idle;
          listed = λ j h. absurd (rw fresh at h);
        } in
        let l = find_free-Left renames s v (λ j h. h) nd in
        let t : Start (first renames s).0 (first renames s).1 = record {
          inv = l.inv;
          known = l.from_list;
          waiting = l.waiting;
          once = l.once;
        } in
        (sort_rounds-Start (suc (length (first renames s).0)) (first renames s).0
          (first renames s).1 t).inv

-- A plan that the scans have made ready is sorted into an order that is safe: when its turn comes,
-- every rename of `ok` finds its source, and nothing at its destination. The specs are listed once
-- each, and `ok` is empty before the sort.
pub topologic_sort-Safe :
    (dict : Dictionary) (file_exists : Bytes → Bool) (work_directory : Bytes) (renames : List ℕ)
    (p : Planning)
    → p.ok ≡ []
    → NoDup renames
    → Ready (exists_here file_exists work_directory) renames p
    → Safe
        (λ j. (p.specs j).old_name)
        (λ j. (p.specs j).new_name)
        (exists_here file_exists work_directory)
        (topologic_sort dict file_exists work_directory renames p).1.planning.ok
topologic_sort-Safe dict file_exists work_directory renames p fresh nd ready =
    (sort-Inv dict (exists_here file_exists work_directory) renames p ready file_exists
      work_directory (λ n. refl) fresh nd).safe
