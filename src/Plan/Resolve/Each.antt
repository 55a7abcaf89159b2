-- ===== src/Plan/Resolve/Each.antt =====
-- The loop of `cross_reference_resolve`, and `apply_unchecked` behind it.
use renameutils.Common.{
  ℕ, ◌<◌, Bool, false, List, [], ◌∷◌, Option, some, ◌≡◌, inl, inr, refl, ap, ◌∙◌, arith, Bytes,
  Bool-cases,
}
use renameutils.Dictionary.{Dictionary}
use renameutils.Plan.{
  Planning, is_unchecked, exists_here, for_each, apply_unchecked_step, apply_unchecked,
}
use renameutils.Plan.Narrow.{In}
use renameutils.Plan.Files.{FileSet}
use renameutils.Plan.Resolve.{Resolving}
use renameutils.Plan.Resolve.Sound.{IsSound, Grows, Grows-refl, Grows-trans}
use renameutils.Plan.Resolve.Added.{Resolvable, Resolvable-Grows}
use renameutils.Plan.Resolve.Step.{step, Vacant, step-Dealt}

Grows-closed :
    (r r' : Resolving) (j : ℕ)
    → Grows r r'
    → j < r.fresh
    → is_unchecked (r.planning.specs j).status ≡ false
    → is_unchecked (r'.planning.specs j).status ≡ false
Grows-closed r r' j g less closed = elim (Bool-cases (is_unchecked (r'.planning.specs j).status)) [
  | inl on ↦ let was = g.still j less on in absurd (ground (arith, was, closed))
  | inr off ↦ off
]

module _ (dict : Dictionary) (file_exists : Bytes → Bool) (work_directory : Bytes)
    (renames : List ℕ) (map_old map_new : dict.Map) (limit : ℕ) where
  abbrev pub files : FileSet
  files = exists_here file_exists work_directory

  abbrev pub one : ℕ → Option Resolving → Option Resolving
  one = step dict file_exists work_directory renames map_old map_new limit

  abbrev pub Room : Resolving → Type 0
  Room r =
      (j : ℕ)
      → In j renames
      → Vacant dict file_exists work_directory renames map_old map_new limit
          (r.planning.specs j).old_name

  -- The loop deals with every spec of its list.
  pub resolve_each :
      (is : List ℕ) (r : Resolving)
      → ((j : ℕ) → In j is → In j renames)
      → IsSound files r
      → Resolvable dict files renames map_old r
      → Room r
      → (r' : Resolving) × (for_each one is (some r) ≡ some r')
        × IsSound files r'
        × Grows r r'
        × ((j : ℕ) → In j is → is_unchecked (r'.planning.specs j).status ≡ false)
  resolve_each [] r sub s v room = (r, refl, s, Grows-refl r, λ j h. absurd h)
  resolve_each (i ∷ is) r sub s v room =
      let h = sub i (inl refl) in
      let (r₁, e₁, d) =
        step-Dealt dict file_exists work_directory renames map_old map_new limit i r s v h
          (room i h) in
      let v₁ = Resolvable-Grows dict files renames map_old r r₁ d.grows v in
      let room₁ : Room r₁ = λ j g. rw (d.grows.old_same j (v.small j g)) (room j g) in
      let (r₂, e₂, s₂, g₂, c₂) = resolve_each is r₁ (λ j g. sub j (inr g)) d.sound v₁ room₁ in
      (
        r₂,
        ap (for_each one is) e₁ ∙ e₂,
        s₂,
        Grows-trans d.grows g₂,
        λ j k. elim k [
          | inl at ↦ rw at (Grows-closed r₁ r₂ i g₂ (v₁.small i h) d.closed)
          | inr g ↦ c₂ j g
        ],
      )

-- Where no spec is unchecked, the last scan does nothing.
apply_unchecked_step-closed :
    (i : ℕ) (p : Planning) → is_unchecked (p.specs i).status ≡ false → apply_unchecked_step i p ≡ p
unfolding apply_unchecked_step
apply_unchecked_step-closed i p e = rw e refl

pub apply_unchecked-closed :
    (is : List ℕ) (p : Planning)
    → ((j : ℕ) → In j is → is_unchecked (p.specs j).status ≡ false)
    → apply_unchecked is p ≡ p
unfolding apply_unchecked
apply_unchecked-closed [] p h = refl
apply_unchecked-closed (i ∷ is) p h =
    ap (for_each apply_unchecked_step is) (apply_unchecked_step-closed i p (h i (inl refl)))
    ∙ apply_unchecked-closed is p (λ j k. h j (inr k))
