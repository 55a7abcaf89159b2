-- ===== src/Plan/Resolve/CircularLinks.antt =====
-- The links that `resolve_circular` makes: those of the circular set, in the order of `ok`.
use renameutils.Common.{
  ℕ, suc, Bool, List, [], ◌∷◌, ◌++◌, none, ◌≡◌, ◌≢◌, inl, inr, refl, sym, ap, ◌∙◌, arith, ==_iff,
  Bytes, length, ◌≤◌, ◌<◌,
}
use renameutils.Dictionary.{Dictionary}
use renameutils.Plan.{Planning}
use renameutils.Plan.Narrow.{In}
use renameutils.Plan.Invariant.{NoDup}
use renameutils.Plan.Resolve.{
  Resolving, write_next, mark_circular, relink, relink_first, add_copy, add_extra, resolve_circular,
}
use renameutils.Plan.Resolve.Follow.{Links}
use renameutils.Plan.Resolve.Marks.{backwards, Marked, LinksAt-next, mark_circular_lem}
use renameutils.Plan.Resolve.Circular.{add_copy-Links}
use renameutils.Plan.Resolve.Relinked.{
  Doubly, In-backwards, NoDup-backwards, Relinked, SameLinks, relink_at,
}

-- The links of the plan once the copy has been added.
pub record CircularLinks (p q : Planning) (copy s1 : ℕ) (ks : List ℕ) : Type 0 where
  pub first : (q.specs (suc copy)).prev_spec ≡ none
  pub linked : Doubly q (suc copy) (backwards ks ++ copy ∷ [])
  pub prev_other :
      (j : ℕ) → j < copy → j ≢ s1 → (In j ks → ⊥) → (q.specs j).prev_spec ≡ (p.specs j).prev_spec
  pub next_other :
      (j : ℕ) → j < copy → j ≢ s1 → (In j ks → ⊥) → (q.specs j).next_spec ≡ (p.specs j).next_spec

Doubly-end :
    (p : Planning) (s2 : ℕ) (ks : List ℕ) (s1 : ℕ)
    → (In s1 (s2 ∷ ks) → ⊥)
    → Doubly p s2 (ks ++ s1 ∷ [])
    → Doubly (write_next p s1 none) s2 (ks ++ s1 ∷ [])
Doubly-end p s2 [] s1 off (n, v, d) =
    let apart : s2 ≢ s1 = λ e. off (inl (sym e)) in
    (ground (arith, ==_iff s2 s1), ground (arith, ==_iff s1 s1), tt)
Doubly-end p s2 (k ∷ ks) s1 off (n, v, d) =
    let apart : s2 ≢ s1 = λ e. off (inl (sym e)) in
    (
      ground (arith, ==_iff s2 s1),
      ground (arith, ==_iff k s1),
      Doubly-end p k ks s1 (λ h. off (inr h)) d,
    )

extra_links :
    (p m : Planning) (copy s1 : ℕ) (ks : List ℕ) (tmp_name : Bytes) (j : ℕ)
    → Marked ks (add_copy p s1 copy) m
    → j < copy
    → j ≢ s1
    → SameLinks p (add_extra m copy tmp_name) j
unfolding add_copy add_extra
extra_links p m copy s1 ks tmp_name j k small n =
    let v = k.prev_same j in
    let x = k.next_same j in
    (
      ground (arith, v, ==_iff j copy, ==_iff j s1, ==_iff copy s1, ==_iff j (suc copy)),
      ground (arith, x, ==_iff j copy, ==_iff j s1, ==_iff copy s1, ==_iff j (suc copy)),
    )

extra_first :
    (m : Planning) (copy : ℕ) (tmp_name : Bytes)
    → ((add_extra m copy tmp_name).specs (suc copy)).prev_spec ≡ none
unfolding add_extra
extra_first m copy tmp_name = ground (arith, ==_iff (suc copy) (suc copy), ==_iff (suc copy) copy)

write_end :
    (p : Planning) (i j : ℕ)
    → (((write_next p i none).specs j).prev_spec ≡ (p.specs j).prev_spec)
      × (j ≢ i → ((write_next p i none).specs j).next_spec ≡ (p.specs j).next_spec)
write_end p i j = (ground (arith, ==_iff j i), λ n. ground (arith, ==_iff j i))

Relinked-CircularLinks :
    (p m r : Planning) (copy s1 : ℕ) (ks : List ℕ) (tmp_name : Bytes)
    → ((j : ℕ) → In j ks → j < copy)
    → Marked ks (add_copy p s1 copy) m
    → Relinked (add_extra m copy tmp_name) r (suc copy) (backwards ks) copy
    → CircularLinks p (write_next r copy none) copy s1 ks
Relinked-CircularLinks p m r copy s1 ks tmp_name small k l =
    let within = λ (j : ℕ) (h : In j (backwards ks)). small j (In-backwards j ks h) in
    let off : In copy (suc copy ∷ backwards ks) → ⊥ = λ h. elim h [
      | inl e ↦ ground (arith, e)
      | inr g ↦ let s = within copy g in ground (arith, s)
    ] in
    record {
      first =
          (write_end r copy (suc copy)).0
          ∙ l.prev_same (suc copy) (λ h. let s = within (suc copy) h in ground (arith, s))
              (ground arith)
          ∙ extra_first m copy tmp_name;
      linked = Doubly-end r (suc copy) (backwards ks) copy off l.linked;
      prev_other = λ j h n o.
          (write_end r copy j).0
          ∙ l.prev_same j (λ g. o (In-backwards j ks g)) (ground arith)
          ∙ (extra_links p m copy s1 ks tmp_name j k h n).0;
      next_other = λ j h n o.
          (write_end r copy j).1 (ground arith)
          ∙ l.next_same j
              (λ g. elim g [ inl e ↦ ground (arith, e) | inr g' ↦ o (In-backwards j ks g') ])
          ∙ (extra_links p m copy s1 ks tmp_name j k h n).1;
    }

add_copy-ok : (p : Planning) (s1 copy : ℕ) → (add_copy p s1 copy).ok ≡ copy ∷ p.ok
unfolding add_copy
add_copy-ok p s1 copy = refl

relink_extra :
    (m : Planning) (copy : ℕ) (tmp_name : Bytes)
    → relink_first (add_extra m copy tmp_name).ok copy (add_extra m copy tmp_name)
      ≡ relink m.ok (suc copy) copy (add_extra m copy tmp_name)
unfolding relink_first add_extra
relink_extra m copy tmp_name = refl

module _ (dict : Dictionary) (file_exists : Bytes → Bool) (work_directory : Bytes) where
  pub resolve_circular-CircularLinks :
      (size s1 : ℕ) (ks : List ℕ) (tmp_name : Bytes) (r : Resolving)
      → Links r.planning s1 ks
      → NoDup ks
      → length ks ≤ size
      → s1 < r.fresh
      → ((j : ℕ) → In j ks → j < r.fresh)
      → (In s1 ks → ⊥)
      → CircularLinks r.planning
          (resolve_circular dict file_exists work_directory size s1 tmp_name r).planning
          r.fresh
          s1
          ks
  unfolding resolve_circular
  resolve_circular-CircularLinks size s1 ks tmp_name r l nd enough small ks_small off =
      let p = r.planning in
      let copied = add_copy p s1 r.fresh in
      let l' = add_copy-Links p r.fresh s1 ks l small ks_small off in
      let k = mark_circular_lem size _ ks copied (LinksAt-next copied r.fresh ks l') nd enough in
      let m = mark_circular size (copied.specs r.fresh).next_spec copied in
      let x = add_extra m r.fresh tmp_name in
      let within = λ (j : ℕ) (h : In j (backwards ks)). ks_small j (In-backwards j ks h) in
      let relinked =
        relink_at m.ok (backwards ks) p.ok (suc r.fresh) r.fresh x
          (k.listed ∙ ap (λ is. backwards ks ++ is) (add_copy-ok p s1 r.fresh))
          (λ h. let s = within (suc r.fresh) h in ground (arith, s), NoDup-backwards ks nd)
          (λ h. elim h [
            | inl e ↦ ground (arith, e)
            | inr g ↦ let s = within r.fresh g in ground (arith, s)
          ]) in
      rw (relink_extra m r.fresh tmp_name) (
        Relinked-CircularLinks p m (relink m.ok (suc r.fresh) r.fresh x) r.fresh s1 ks tmp_name
          ks_small k relinked)
