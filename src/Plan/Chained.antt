-- ===== src/Plan/Chained.antt =====
-- The links of a plan: a spec of `ok` waits for none, or for one that stands before it and leads to it.
use renameutils.Common.{
  ℕ, true, List, [], ◌∷◌, ◌++◌, none, some, ◌≡◌, ◌⊎◌, inl, inr, refl, ap, ◌∙◌, arith, ==_iff,
  Option-cases,
}
use renameutils.Plan.{FileSpec}
use renameutils.Plan.Narrow.{In}
use renameutils.Apply.{is_planned, set_prev, free_file_spec}
use renameutils.Apply.Moves.{Unblocked}

abbrev pub Waits : (ℕ → FileSpec) → List ℕ → ℕ → Type 0
Waits specs before i =
    ((specs i).prev_spec ≡ none)
    ⊎ ((d : ℕ) × In d before × ((specs i).prev_spec ≡ some d) × ((specs d).next_spec ≡ some i))

abbrev pub Chained : (ℕ → FileSpec) → List ℕ → List ℕ → Type 0
Chained specs before [] = Unit
Chained specs before (i ∷ is) =
    (is_planned (specs i).status ≡ true) × Waits specs before i × Chained specs (i ∷ before) is

Waits-more :
    (specs : ℕ → FileSpec) (before before' : List ℕ) (i : ℕ)
    → ((d : ℕ) → In d before → In d before')
    → Waits specs before i
    → Waits specs before' i
Waits-more specs before before' i sub (inl e) = inl e
Waits-more specs before before' i sub (inr (d, h, v, n)) = inr (d, sub d h, v, n)

pub Chained-more :
    (specs : ℕ → FileSpec) (before before' is : List ℕ)
    → ((d : ℕ) → In d before → In d before')
    → Chained specs before is
    → Chained specs before' is
Chained-more specs before before' [] sub c = tt
Chained-more specs before before' (i ∷ is) sub (p, w, c) = (
  p,
  Waits-more specs before before' i sub w,
  Chained-more specs (i ∷ before) (i ∷ before') is
      (λ d h. elim h [ inl e ↦ inl e | inr g ↦ inr (sub d g) ]) c,
)

pub Chained-append :
    (specs : ℕ → FileSpec) (before is js : List ℕ)
    → Chained specs before is
    → Chained specs [] js
    → Chained specs before (is ++ js)
Chained-append specs before [] js c d = Chained-more specs [] before js (λ k h. absurd h) d
Chained-append specs before (i ∷ is) js (p, w, c) d =
    (p, w, Chained-append specs (i ∷ before) is js c d)

pub Chained-snoc :
    (specs : ℕ → FileSpec) (before is : List ℕ) (i : ℕ)
    → Chained specs before is
    → is_planned (specs i).status ≡ true
    → ((before' : List ℕ)
        → ((d : ℕ) → In d is ⊎ In d before → In d before')
        → Waits specs before' i)
    → Chained specs before (is ++ i ∷ [])
Chained-snoc specs before [] i c p w =
    (p, w before (λ d h. elim h [ inl g ↦ absurd g | inr g ↦ g ]), tt)
Chained-snoc specs before (k ∷ is) i (q, v, c) p w = (
  q,
  v,
  Chained-snoc specs (k ∷ before) is i c p (λ before' sub. w before' (λ d h. elim h [
    | inl g ↦ elim g [ inl e ↦ sub d (inr (inl e)) | inr g' ↦ sub d (inl g') ]
    | inr g ↦ sub d (inr (inr g))
  ])),
)

-- Only the specs of the list, and those that they wait for, matter.
pub Chained-same :
    (specs specs' : ℕ → FileSpec) (before is : List ℕ)
    → ((j : ℕ) → In j is → is_planned (specs' j).status ≡ is_planned (specs j).status)
    → ((j : ℕ) → In j is → (specs' j).prev_spec ≡ (specs j).prev_spec)
    → ((j d : ℕ)
        → In j is
        → (specs j).prev_spec ≡ some d
        → (specs' d).next_spec ≡ (specs d).next_spec)
    → Chained specs before is
    → Chained specs' before is
Chained-same specs specs' before [] a b c h = tt
Chained-same specs specs' before (i ∷ is) a b c (p, w, h) = (
  a i (inl refl) ∙ p,
  elim w [
    | inl e ↦ inl (b i (inl refl) ∙ e)
    | inr (d, g, v, n) ↦ inr (d, g, b i (inl refl) ∙ v, c i d (inl refl) v ∙ n)
  ],
  Chained-same specs specs' (i ∷ before) is (λ j g. a j (inr g)) (λ j g. b j (inr g))
      (λ j d g. c j d (inr g)) h,
)

-- The list, with what it may wait for, is all that matters.
pub Chained-frame :
    (specs specs' : ℕ → FileSpec) (before is : List ℕ)
    → ((j : ℕ) → In j is → (specs' j).status ≡ (specs j).status)
    → ((j : ℕ) → In j is → (specs' j).prev_spec ≡ (specs j).prev_spec)
    → ((d : ℕ) → In d is ⊎ In d before → (specs' d).next_spec ≡ (specs d).next_spec)
    → Chained specs before is
    → Chained specs' before is
Chained-frame specs specs' before [] a b c h = tt
Chained-frame specs specs' before (i ∷ is) a b c (p, w, h) = (
  ap is_planned (a i (inl refl)) ∙ p,
  elim w [
    | inl e ↦ inl (b i (inl refl) ∙ e)
    | inr (d, g, v, n) ↦ inr (d, g, b i (inl refl) ∙ v, c d (inr g) ∙ n)
  ],
  Chained-frame specs specs' (i ∷ before) is (λ j g. a j (inr g)) (λ j g. b j (inr g))
      (λ d g. elim g [
        | inl g' ↦ c d (inl (inr g'))
        | inr g' ↦ elim g' [ inl e ↦ c d (inl (inl e)) | inr g'' ↦ c d (inr g'') ]
      ])
      h,
)

-- What the removal of a spec that waits for none makes of the others.
record Freed (specs specs' : ℕ → FileSpec) (i : ℕ) : Type 0 where
  status_same : (j : ℕ) → (specs' j).status ≡ (specs j).status
  next_same : (j : ℕ) → (specs' j).next_spec ≡ (specs j).next_spec
  prev_free : (j : ℕ) → (specs i).next_spec ≡ some j → (specs' j).prev_spec ≡ none
  prev_or : (j : ℕ) → ((specs' j).prev_spec ≡ none) ⊎ ((specs' j).prev_spec ≡ (specs j).prev_spec)

set_prev-Freed :
    (specs : ℕ → FileSpec) (i : ℕ) → Freed specs (set_prev specs (specs i).next_spec none) i
set_prev-Freed specs i = elim (Option-cases (specs i).next_spec) [
  | inl e ↦ rw e (record {
    status_same = λ j. refl;
    next_same = λ j. refl;
    prev_free = λ j h. ground (arith, e, h);
    prev_or = λ j. inr refl;
  })
  | inr (k, e) ↦ rw e (record {
    status_same = λ j. ground (arith, ==_iff j k);
    next_same = λ j. ground (arith, ==_iff j k);
    prev_free = λ j h. ground (arith, e, h, ==_iff j k);
    prev_or = λ j. ground (arith, ==_iff j k);
  })
]

free-Freed :
    (specs : ℕ → FileSpec) (i : ℕ)
    → (specs i).prev_spec ≡ none
    → Freed specs (free_file_spec specs i) i
unfolding free_file_spec
free-Freed specs i e = rw (e, e) (set_prev-Freed specs i)

Freed-Chained :
    (specs specs' : ℕ → FileSpec) (i : ℕ) (before before' is : List ℕ)
    → Freed specs specs' i
    → ((d : ℕ) → In d before → (d ≡ i) ⊎ In d before')
    → Chained specs before is
    → Chained specs' before' is
Freed-Chained specs specs' i before before' [] f sub c = tt
Freed-Chained specs specs' i before before' (k ∷ is) f sub (p, w, c) = (
  ap is_planned (f.status_same k) ∙ p,
  elim (f.prev_or k) [
    | inl e ↦ inl e
    | inr same ↦ elim w [
      | inl e ↦ inl (same ∙ e)
      | inr (d, h, v, n) ↦ elim (sub d h) [
        | inl at ↦ inl (f.prev_free k (rw at at n))
        | inr g ↦ inr (d, g, same ∙ v, f.next_same d ∙ n)
      ]
    ]
  ],
  Freed-Chained specs specs' i (k ∷ before) (k ∷ before') is f
      (λ d h. elim h [
        | inl e ↦ inr (inl e)
        | inr g ↦ elim (sub d g) [ inl at ↦ inl at | inr g' ↦ inr (inr g') ]
      ])
      c,
)

-- When its turn comes, no spec of such a plan waits.
pub Chained-Unblocked :
    (specs : ℕ → FileSpec) (is : List ℕ) → Chained specs [] is → Unblocked specs is
unfolding Unblocked
Chained-Unblocked specs [] c = tt
Chained-Unblocked specs (i ∷ is) (p, w, c) =
    let first : (specs i).prev_spec ≡ none = elim w [ inl e ↦ e | inr (d, h, v, n) ↦ absurd h ] in
    (
      p,
      first,
      Chained-Unblocked (free_file_spec specs i) is (
          Freed-Chained specs (free_file_spec specs i) i (i ∷ []) [] is (free-Freed specs i first)
            (λ d h. elim h [ inl e ↦ inl e | inr g ↦ absurd g ]) c),
    )
