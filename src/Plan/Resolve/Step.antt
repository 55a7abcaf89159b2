-- ===== src/Plan/Resolve/Step.antt =====
-- The steps of `cross_reference_resolve`: a sound plan stays sound, and the spec is dealt with.
use renameutils.Common.{
  ℕ, suc, ◌+◌, ◌<◌, Bool, false, List, Option, none, some, ◌≡◌, inl, inr, refl, ap, ◌∙◌, arith,
  Bytes, length, Bool-cases, Option-cases,
}
use renameutils.Dictionary.{Dictionary}
use renameutils.Plan.{is_unchecked, exists_here}
use renameutils.Plan.Narrow.{In, IsUnchecked}
use renameutils.Plan.Files.{FileSet}
use renameutils.Plan.Resolve.{
  Resolving, temporary_name, find_temporary, follow, is_taken, resolve_circular, resolve_step,
}
use renameutils.Plan.Resolve.Chain.{Chain-same, Chain-NoDup, Chain-start, NoDup-length}
use renameutils.Plan.Resolve.Follow.{Links, NextOnly, follow-Links, follow-NextOnly}
use renameutils.Plan.Resolve.Names.{find_temporary-free, find_temporary-some, is_taken-exists}
use renameutils.Plan.Resolve.Circular.{resolve_circular-Circular}
use renameutils.Plan.Resolve.CircularLinks.{resolve_circular-CircularLinks}
use renameutils.Plan.Resolve.Sound.{
  IsSound, Grows, Grows-refl, Grows-trans, refused, refuse-IsSound, refuse-Grows, refuse_closed,
  NextOnly-IsSound, NextOnly-Grows,
}
use renameutils.Plan.Resolve.Added.{
  Resolvable, Resolvable-Grows, Resolvable-Sources, Ring, Ring-known, added-IsSound, added-Grows,
  added_closed_s1,
}

module _ (dict : Dictionary) (file_exists : Bytes → Bool) (work_directory : Bytes)
    (renames : List ℕ) (map_old map_new : dict.Map) (limit : ℕ) where
  open dict use {get}

  abbrev pub files : FileSet
  files = exists_here file_exists work_directory

  abbrev pub step : ℕ → Option Resolving → Option Resolving
  step = resolve_step dict file_exists work_directory limit (length renames) (map_old, map_new)

  abbrev followed : ℕ → Resolving → Resolving
  followed i r = record r { planning = follow dict (length renames) map_old i i i r.planning }

  abbrev tried : ℕ → Resolving → Option Bytes
  tried i r =
      find_temporary (is_taken dict file_exists work_directory map_new)
        ((followed i r).planning.specs i).old_name limit 1

  step_off :
      (i : ℕ) (r : Resolving)
      → is_unchecked (r.planning.specs i).status ≡ false
      → step i (some r) ≡ some r
  unfolding resolve_step
  step_off i r e = rw (resolve_step, e) refl

  step_dead :
      (i : ℕ) (r r' : Resolving)
      → IsUnchecked r.planning i
      → ((followed i r).planning.specs i).next_spec ≡ none
      → refused (followed i r) i ≡ r'
      → step i (some r) ≡ some r'
  unfolding resolve_step
  step_dead i r r' u e f = rw (resolve_step, u, e) (ap some f)

  step_found :
      (i k : ℕ) (r : Resolving) (tmp_name : Bytes)
      → IsUnchecked r.planning i
      → ((followed i r).planning.specs i).next_spec ≡ some k
      → tried i r ≡ some tmp_name
      → step i (some r)
        ≡ some (
            resolve_circular dict file_exists work_directory
              (length renames)
              i
              tmp_name
              (followed i r))
  unfolding resolve_step
  step_found i k r tmp_name u e t = rw (resolve_step, u, e, t) refl

  resolve_circular_fresh :
      (size i : ℕ) (tmp_name : Bytes) (r : Resolving)
      → resolve_circular dict file_exists work_directory size i tmp_name r ≡ record {
        planning = (resolve_circular dict file_exists work_directory size i tmp_name r).planning;
        fresh = suc (suc r.fresh);
      }
  unfolding resolve_circular
  resolve_circular_fresh size i tmp_name r = refl

  -- What a step comes to.
  pub record Dealt (i : ℕ) (r r' : Resolving) : Type 0 where
    pub sound : IsSound files r'
    pub grows : Grows r r'
    pub closed : is_unchecked (r'.planning.specs i).status ≡ false

  abbrev pub Vacant : Bytes → Type 0
  Vacant old_name =
      (n : ℕ) × (n < limit)
      × (is_taken dict file_exists work_directory map_new (temporary_name old_name (n + 1)) ≡ false)

  module _ (i : ℕ) (r : Resolving) (s : IsSound files r)
      (v : Resolvable dict files renames map_old r) (h : In i renames)
      (vacant : Vacant (r.planning.specs i).old_name) (u : IsUnchecked r.planning i) where
    abbrev r₁ : Resolving
    r₁ = followed i r

    only : NextOnly r.planning r₁.planning
    only =
        follow-NextOnly dict renames r.planning map_old
          (Resolvable-Sources dict files renames map_old r v) i u h

    sound₁ : IsSound files r₁
    sound₁ = NextOnly-IsSound files r r₁.planning only s

    grows₁ : Grows r r₁
    grows₁ = NextOnly-Grows r r₁.planning only

    v₁ : Resolvable dict files renames map_old r₁
    v₁ = Resolvable-Grows dict files renames map_old r r₁ grows₁ v

    u₁ : IsUnchecked r₁.planning i
    u₁ = ap is_unchecked (only.status_same i) ∙ u

    found-Dealt :
        (ks : List ℕ)
        → Ring dict files renames map_old r₁ v₁ i h u₁ i ks
        → Links r₁.planning i ks
        → (k : ℕ) → (r₁.planning.specs i).next_spec ≡ some k
        → (r' : Resolving) × (step i (some r) ≡ some r') × Dealt i r r'
    found-Dealt ks ring links k e =
        let (n, less, free) = vacant in
        let free' =
          ap (λ o. is_taken dict file_exists work_directory map_new (temporary_name o (n + 1)))
            (only.old_same i)
          ∙ free in
        let (tmp_name, t) =
          find_temporary-some (is_taken dict file_exists work_directory map_new)
            (r₁.planning.specs i).old_name limit 1 n less free' in
        let tmp_free = is_taken-exists dict file_exists work_directory map_new tmp_name (
          find_temporary-free (is_taken dict file_exists work_directory map_new)
            (r₁.planning.specs i).old_name limit 1 tmp_name t) in
        let look = get map_old in
        let new = λ (j : ℕ). (r₁.planning.specs j).new_name in
        let nd = Chain-NoDup look new (IsUnchecked r₁.planning) i i ks ring in
        let off = Chain-start look new (IsUnchecked r₁.planning) i i ks ring in
        let known = λ (j : ℕ) (g : In j ks).
          Ring-known dict files renames map_old r₁ v₁ i h u₁ i ks j ring g in
        let few = NoDup-length ks renames nd known in
        let within = λ (j : ℕ) (g : In j ks). v₁.small j (known j g) in
        let c =
          resolve_circular-Circular dict file_exists work_directory (length renames) i ks tmp_name
            r₁ links nd few (v₁.small i h) within off in
        let l =
          resolve_circular-CircularLinks dict file_exists work_directory (length renames) i ks
            tmp_name r₁ links nd few (v₁.small i h) within off in
        let q =
          (resolve_circular dict file_exists work_directory (length renames) i tmp_name
            r₁).planning in
        (
          record { planning = q; fresh = suc (suc r₁.fresh) },
          step_found i k r tmp_name u e t
              ∙ ap some (resolve_circular_fresh (length renames) i tmp_name r₁),
          record {
            sound =
                added-IsSound dict files renames map_old r₁ v₁ i h u₁ q ks tmp_name tmp_free ring c
                  l sound₁;
            grows = Grows-trans grows₁ (
                added-Grows dict files renames map_old r₁ v₁ i h u₁ q ks tmp_name tmp_free ring c l
                  sound₁);
            closed =
                added_closed_s1 dict files renames map_old r₁ v₁ i h u₁ q ks tmp_name tmp_free ring
                  c l sound₁;
          },
        )

    unchecked-Dealt : (r' : Resolving) × (step i (some r) ≡ some r') × Dealt i r r'
    unchecked-Dealt = elim (Option-cases (r₁.planning.specs i).next_spec) [
      | inl e ↦ (
        refused r₁ i,
        step_dead i r (refused r₁ i) u e refl,
        record {
          sound = refuse-IsSound files r₁ i sound₁ u₁;
          grows = Grows-trans grows₁ (refuse-Grows r₁ i);
          closed = refuse_closed r₁ i;
        },
      )
      | inr (k, e) ↦
          let ends =
            follow-Links dict renames r.planning map_old
              (Resolvable-Sources dict files renames map_old r v) i u h in
          elim ends [
            | inl dead ↦ absurd (ground (arith, dead, e))
            | inr (ks, ring, links) ↦
                found-Dealt ks
                  (Chain-same (get map_old) (λ j. (r.planning.specs j).new_name)
                    (λ j. (r₁.planning.specs j).new_name) (IsUnchecked r.planning)
                    (IsUnchecked r₁.planning) i only.new_same
                    (λ j w. ap is_unchecked (only.status_same j) ∙ w) i ks ring)
                  links k e
          ]
    ]

  pub step-Dealt :
      (i : ℕ) (r : Resolving)
      → IsSound files r
      → Resolvable dict files renames map_old r
      → In i renames
      → Vacant (r.planning.specs i).old_name
      → (r' : Resolving) × (step i (some r) ≡ some r') × Dealt i r r'
  step-Dealt i r s v h vacant = elim (Bool-cases (is_unchecked (r.planning.specs i).status)) [
    | inl on ↦ unchecked-Dealt i r s v h vacant on
    | inr off ↦ (r, step_off i r off, record { sound = s; grows = Grows-refl r; closed = off })
  ]
