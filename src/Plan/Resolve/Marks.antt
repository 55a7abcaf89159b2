-- ===== src/Plan/Resolve/Marks.antt =====
-- What `resolve_circular` makes of the plan: its names, statuses and `ok`.
use renameutils.Common.{
  ℕ, zero, suc, List, [], ◌∷◌, ◌++◌, Option, none, some, ◌≡◌, ◌≢◌, inl, inr, refl, sym, ◌∙◌, arith,
  ==_iff, length, ◌≤◌, ◌==◌, append_assoc, Bool-cases,
}
use renameutils.Plan.{Planning, circular, set_status}
use renameutils.Plan.Narrow.{In}
use renameutils.Plan.Invariant.{NoDup}
use renameutils.Plan.Resolve.{
  write_next, add_first, write_prev, mark_circular, relink, relink_first,
}
use renameutils.Plan.Resolve.Follow.{Links}

abbrev pub backwards : List ℕ → List ℕ
backwards [] = []
backwards (k ∷ ks) = backwards ks ++ k ∷ []

-- `mark_circular` on the specs of a chain.
pub record Marked (ks : List ℕ) (p p' : Planning) : Type 0 where
  pub old_same : (j : ℕ) → (p'.specs j).old_name ≡ (p.specs j).old_name
  pub new_same : (j : ℕ) → (p'.specs j).new_name ≡ (p.specs j).new_name
  pub prev_same : (j : ℕ) → (p'.specs j).prev_spec ≡ (p.specs j).prev_spec
  pub next_same : (j : ℕ) → (p'.specs j).next_spec ≡ (p.specs j).next_spec
  pub marked : (j : ℕ) → In j ks → (p'.specs j).status ≡ circular
  pub unmarked : (j : ℕ) → (In j ks → ⊥) → (p'.specs j).status ≡ (p.specs j).status
  pub listed : p'.ok ≡ backwards ks ++ p.ok

Marked-nil : (p : Planning) → Marked [] p p
Marked-nil p = record {
  old_same = λ j. refl;
  new_same = λ j. refl;
  prev_same = λ j. refl;
  next_same = λ j. refl;
  marked = λ j h. absurd h;
  unmarked = λ j h. refl;
  listed = refl;
}

abbrev marked_one : Planning → ℕ → Planning
marked_one p k = add_first (set_status p k circular) k

marked_one-next :
    (p : Planning) (k j : ℕ) → ((marked_one p k).specs j).next_spec ≡ (p.specs j).next_spec
marked_one-next p k j = ground (arith, ==_iff j k)

Marked-cons :
    (k : ℕ) (ks : List ℕ) (p p' : Planning)
    → (In k ks → ⊥)
    → Marked ks (marked_one p k) p'
    → Marked (k ∷ ks) p p'
Marked-cons k ks p p' off m = record {
  old_same = λ j. m.old_same j ∙ ground (arith, ==_iff j k);
  new_same = λ j. m.new_same j ∙ ground (arith, ==_iff j k);
  prev_same = λ j. m.prev_same j ∙ ground (arith, ==_iff j k);
  next_same = λ j. m.next_same j ∙ marked_one-next p k j;
  marked = λ j h. elim h [
    | inl at ↦ rw at (m.unmarked k off ∙ ground (arith, ==_iff k k))
    | inr g ↦ m.marked j g
  ];
  unmarked = λ j h.
      let n : j ≢ k = λ at. h (inl at) in
      m.unmarked j (λ g. h (inr g)) ∙ ground (arith, ==_iff j k);
  listed = m.listed ∙ sym (append_assoc (backwards ks) (k ∷ []) p.ok);
}

-- A chain that starts at a pointer.
abbrev pub LinksAt : Planning → Option ℕ → List ℕ → Type 0
LinksAt p o [] = o ≡ none
LinksAt p o (k ∷ ks) = (o ≡ some k) × Links p k ks

pub LinksAt-next :
    (p : Planning) (s2 : ℕ) (ks : List ℕ) → Links p s2 ks → LinksAt p (p.specs s2).next_spec ks
LinksAt-next p s2 [] l = l
LinksAt-next p s2 (k ∷ ks) l = l

-- Only the specs of the chain matter.
pub Links-same :
    (p p' : Planning) (s2 : ℕ) (ks : List ℕ)
    → ((j : ℕ) → In j (s2 ∷ ks) → (p'.specs j).next_spec ≡ (p.specs j).next_spec)
    → Links p s2 ks
    → Links p' s2 ks
Links-same p p' s2 [] same l = same s2 (inl refl) ∙ l
Links-same p p' s2 (k ∷ ks) same (e, l) =
    (same s2 (inl refl) ∙ e, Links-same p p' k ks (λ j h. same j (inr h)) l)

pub mark_circular_lem :
    (fuel : ℕ) (o : Option ℕ) (ks : List ℕ) (p : Planning)
    → LinksAt p o ks
    → NoDup ks
    → length ks ≤ fuel
    → Marked ks p (mark_circular fuel o p)
unfolding mark_circular
mark_circular_lem zero o [] p e nd enough = Marked-nil p
mark_circular_lem zero o (k ∷ ks) p e nd enough = absurd (ground arith)
mark_circular_lem (suc fuel) o [] p e nd enough = rw e (Marked-nil p)
mark_circular_lem (suc fuel) o (k ∷ ks) p (e, l) nd enough =
    let p' = marked_one p k in
    let l' = Links-same p p' k ks (λ j h. marked_one-next p k j) l in
    rw e (
      Marked-cons k ks p _ nd.0
        (mark_circular_lem fuel _ ks p' (LinksAt-next p' k ks l') nd.1 (ground arith)))

-- Only links change.
pub record LinksOnly (p p' : Planning) : Type 0 where
  pub old_same : (j : ℕ) → (p'.specs j).old_name ≡ (p.specs j).old_name
  pub new_same : (j : ℕ) → (p'.specs j).new_name ≡ (p.specs j).new_name
  pub status_same : (j : ℕ) → (p'.specs j).status ≡ (p.specs j).status
  pub ok_same : p'.ok ≡ p.ok

pub LinksOnly-trans : {p q r : Planning} → LinksOnly p q → LinksOnly q r → LinksOnly p r
LinksOnly-trans a b = record {
  old_same = λ j. b.old_same j ∙ a.old_same j;
  new_same = λ j. b.new_same j ∙ a.new_same j;
  status_same = λ j. b.status_same j ∙ a.status_same j;
  ok_same = b.ok_same ∙ a.ok_same;
}

LinksOnly-refl : (p : Planning) → LinksOnly p p
LinksOnly-refl p = record {
  old_same = λ j. refl;
  new_same = λ j. refl;
  status_same = λ j. refl;
  ok_same = refl;
}

pub write_next-LinksOnly : (p : Planning) (i : ℕ) (o : Option ℕ) → LinksOnly p (write_next p i o)
write_next-LinksOnly p i o = record {
  old_same = λ j. ground (arith, ==_iff j i);
  new_same = λ j. ground (arith, ==_iff j i);
  status_same = λ j. ground (arith, ==_iff j i);
  ok_same = refl;
}

write_prev-LinksOnly : (p : Planning) (i : ℕ) (o : Option ℕ) → LinksOnly p (write_prev p i o)
write_prev-LinksOnly p i o = record {
  old_same = λ j. ground (arith, ==_iff j i);
  new_same = λ j. ground (arith, ==_iff j i);
  status_same = λ j. ground (arith, ==_iff j i);
  ok_same = refl;
}

relink-LinksOnly : (rest : List ℕ) (s2 s1 : ℕ) (p : Planning) → LinksOnly p (relink rest s2 s1 p)
unfolding relink
relink-LinksOnly [] s2 s1 p = LinksOnly-refl p
relink-LinksOnly (k ∷ ks) s2 s1 p =
    let q = write_next p s2 (some k) in
    let here =
      LinksOnly-trans (write_next-LinksOnly p s2 (some k)) (write_prev-LinksOnly q k (some s2)) in
    elim (Bool-cases (k == s1)) [
      | inl at ↦ rw at here
      | inr off ↦
          rw off (LinksOnly-trans here (relink-LinksOnly ks k s1 (write_prev q k (some s2))))
    ]

pub relink_first-LinksOnly :
    (is : List ℕ) (s1 : ℕ) (p : Planning) → LinksOnly p (relink_first is s1 p)
unfolding relink_first
relink_first-LinksOnly [] s1 p = LinksOnly-refl p
relink_first-LinksOnly (s2 ∷ rest) s1 p = relink-LinksOnly rest s2 s1 p
