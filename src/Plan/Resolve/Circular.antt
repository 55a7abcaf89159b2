-- ===== src/Plan/Resolve/Circular.antt =====
-- `resolve_circular`: the names, the statuses and `ok` of the plan that it makes.
use renameutils.Common.{
  ℕ, suc, Bool, List, [], ◌∷◌, ◌++◌, none, ◌≡◌, ◌≢◌, ap, ◌∙◌, arith, ==_iff, Bytes, length, ◌≤◌,
  ◌<◌,
}
use renameutils.Dictionary.{Dictionary}
use renameutils.Plan.{Planning, apply, circular}
use renameutils.Plan.Narrow.{In}
use renameutils.Plan.Invariant.{NoDup}
use renameutils.Plan.Resolve.{Resolving, add_copy, add_extra, resolve_circular}
use renameutils.Plan.Resolve.Follow.{Links}
use renameutils.Plan.Resolve.Marks.{
  backwards, Marked, Links-same, LinksAt-next, mark_circular_lem, LinksOnly, LinksOnly-trans,
  write_next-LinksOnly, relink_first-LinksOnly,
}

-- The plan once `copy` has been added, for the circular set of `s1` and `ks`.
pub record Circular (p q : Planning) (copy s1 : ℕ) (ks : List ℕ) (tmp_name : Bytes) : Type 0 where
  pub old_same : (j : ℕ) → j < copy → (q.specs j).old_name ≡ (p.specs j).old_name
  pub new_same : (j : ℕ) → j < copy → (q.specs j).new_name ≡ (p.specs j).new_name
  pub old_copy : (q.specs copy).old_name ≡ tmp_name
  pub new_copy : (q.specs copy).new_name ≡ (p.specs s1).new_name
  pub old_extra : (q.specs (suc copy)).old_name ≡ (p.specs s1).old_name
  pub new_extra : (q.specs (suc copy)).new_name ≡ tmp_name
  pub status_copy : (q.specs copy).status ≡ circular
  pub status_extra : (q.specs (suc copy)).status ≡ circular
  pub status_s1 : (q.specs s1).status ≡ apply
  pub status_ks : (j : ℕ) → In j ks → (q.specs j).status ≡ circular
  pub status_other :
      (j : ℕ) → j < copy → j ≢ s1 → (In j ks → ⊥) → (q.specs j).status ≡ (p.specs j).status
  pub listed : q.ok ≡ suc copy ∷ backwards ks ++ copy ∷ p.ok

Circular-LinksOnly :
    (p q r : Planning) (copy s1 : ℕ) (ks : List ℕ) (tmp_name : Bytes)
    → Circular p q copy s1 ks tmp_name
    → LinksOnly q r
    → Circular p r copy s1 ks tmp_name
Circular-LinksOnly p q r copy s1 ks tmp_name c l = record {
  old_same = λ j h. l.old_same j ∙ c.old_same j h;
  new_same = λ j h. l.new_same j ∙ c.new_same j h;
  old_copy = l.old_same copy ∙ c.old_copy;
  new_copy = l.new_same copy ∙ c.new_copy;
  old_extra = l.old_same (suc copy) ∙ c.old_extra;
  new_extra = l.new_same (suc copy) ∙ c.new_extra;
  status_copy = l.status_same copy ∙ c.status_copy;
  status_extra = l.status_same (suc copy) ∙ c.status_extra;
  status_s1 = l.status_same s1 ∙ c.status_s1;
  status_ks = λ j h. l.status_same j ∙ c.status_ks j h;
  status_other = λ j h n off. l.status_same j ∙ c.status_other j h n off;
  listed = l.ok_same ∙ c.listed;
}

add_copy-next :
    (p : Planning) (copy s1 : ℕ)
    → s1 < copy
    → ((add_copy p s1 copy).specs copy).next_spec ≡ (p.specs s1).next_spec
unfolding add_copy
add_copy-next p copy s1 small = ground (arith, ==_iff copy copy, ==_iff copy s1)

add_copy-next_other :
    (p : Planning) (copy s1 j : ℕ)
    → j < copy
    → j ≢ s1
    → ((add_copy p s1 copy).specs j).next_spec ≡ (p.specs j).next_spec
unfolding add_copy
add_copy-next_other p copy s1 j small n = ground (arith, ==_iff j copy, ==_iff j s1)

In-same : {j k : ℕ} (is : List ℕ) → j ≡ k → In j is → In k is
In-same is at h = rw at at h

-- The links of the circular set are those of the copy.
pub add_copy-Links :
    (p : Planning) (copy s1 : ℕ) (ks : List ℕ)
    → Links p s1 ks
    → s1 < copy
    → ((j : ℕ) → In j ks → j < copy)
    → (In s1 ks → ⊥)
    → Links (add_copy p s1 copy) copy ks
add_copy-Links p copy s1 [] l small ks_small off = add_copy-next p copy s1 small ∙ l
add_copy-Links p copy s1 (k ∷ ks) (e, l) small ks_small off = (
  add_copy-next p copy s1 small ∙ e,
  Links-same p (add_copy p s1 copy) k ks
      (λ j h. add_copy-next_other p copy s1 j (ks_small j h) (λ at. off (In-same (k ∷ ks) at h))) l,
)

add_extra-Circular :
    (p m : Planning) (copy s1 : ℕ) (ks : List ℕ) (tmp_name : Bytes)
    → s1 < copy
    → ((j : ℕ) → In j ks → j < copy)
    → (In s1 ks → ⊥)
    → Marked ks (add_copy p s1 copy) m
    → Circular p (add_extra m copy tmp_name) copy s1 ks tmp_name
unfolding add_copy add_extra
add_extra-Circular p m copy s1 ks tmp_name small ks_small off k = record {
  old_same = λ j h.
      let e = k.old_same j in
      ground (arith, e, ==_iff j copy, ==_iff j s1, ==_iff copy s1, ==_iff j (suc copy));
  new_same = λ j h.
      let e = k.new_same j in
      ground (arith, e, ==_iff j copy, ==_iff j s1, ==_iff copy s1, ==_iff j (suc copy));
  old_copy = ground (arith, ==_iff copy copy);
  new_copy =
      let e = k.new_same copy in
      ground (arith, e, ==_iff copy copy, ==_iff copy s1, ==_iff copy (suc copy));
  old_extra =
      let e = k.old_same copy in
      ground (
        arith,
        e,
        ==_iff copy copy,
        ==_iff copy s1,
        ==_iff (suc copy) (suc copy),
        ==_iff (suc copy) copy,
      );
  new_extra = ground (arith, ==_iff (suc copy) (suc copy), ==_iff (suc copy) copy);
  status_copy =
      let e = k.unmarked copy (λ h. let g = ks_small copy h in ground (arith, g)) in
      ground (arith, e, ==_iff copy copy, ==_iff copy s1, ==_iff copy (suc copy));
  status_extra = ground (arith, ==_iff (suc copy) (suc copy), ==_iff (suc copy) copy);
  status_s1 =
      let e = k.unmarked s1 off in
      ground (arith, e, ==_iff s1 s1, ==_iff s1 copy, ==_iff s1 (suc copy));
  status_ks = λ j h.
      let e = k.marked j h in
      let g = ks_small j h in ground (arith, e, g, ==_iff j copy, ==_iff j (suc copy));
  status_other = λ j h n o.
      let e = k.unmarked j o in
      ground (arith, e, ==_iff j copy, ==_iff j s1, ==_iff copy s1, ==_iff j (suc copy));
  listed = ap (λ t. suc copy ∷ t) k.listed;
}

module _ (dict : Dictionary) (file_exists : Bytes → Bool) (work_directory : Bytes) where
  pub resolve_circular-Circular :
      (size s1 : ℕ) (ks : List ℕ) (tmp_name : Bytes) (r : Resolving)
      → Links r.planning s1 ks
      → NoDup ks
      → length ks ≤ size
      → s1 < r.fresh
      → ((j : ℕ) → In j ks → j < r.fresh)
      → (In s1 ks → ⊥)
      → Circular r.planning
          (resolve_circular dict file_exists work_directory size s1 tmp_name r).planning
          r.fresh
          s1
          ks
          tmp_name
  unfolding resolve_circular
  resolve_circular-Circular size s1 ks tmp_name r l nd enough small ks_small off =
      let copied = add_copy r.planning s1 r.fresh in
      let l' = add_copy-Links r.planning r.fresh s1 ks l small ks_small off in
      let marked =
        mark_circular_lem size _ ks copied (LinksAt-next copied r.fresh ks l') nd enough in
      let c = add_extra-Circular r.planning _ r.fresh s1 ks tmp_name small ks_small off marked in
      Circular-LinksOnly r.planning _ _ r.fresh s1 ks tmp_name c
        (LinksOnly-trans (relink_first-LinksOnly _ r.fresh _) (write_next-LinksOnly _ r.fresh none))
