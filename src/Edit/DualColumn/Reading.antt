-- ===== src/Edit/DualColumn/Reading.antt =====
-- What a success of `input` of the dual-column format says of the edit file.
use renameutils.Common.{
  ℕ, Bool, List, [], ◌∷◌, Option, none, ◌≡◌, inl, inr, refl, ap, ◌∙◌, arith, Bytes, Bool-cases,
  Option-cases, length, ◌&&◌,
}
use renameutils.TabUtils.{tab_index}
use renameutils.Plan.{FileSpec}
use renameutils.Edit.{Ending, finished, refused, crashed, has_more}
use renameutils.Edit.DualColumn.{
  Options, Source, read_unread_line, blank_to, input_names, skip_empty, input_spec, new_names,
  input_each, input,
}
use renameutils.Edit.DualColumn.Agreement.{
  Agree, process_single_line-Agree, process_dual_line-Agree,
}

-- The same with what is left to read, which is the same, too.
abbrev Same :
    FileSpec → FileSpec → Ending × Option Bytes × Source → Ending × Option Bytes × Source → Type 0
Same spec spec' r r' =
    r.0 ≡ finished
    → r'.0 ≡ finished
    → (spec.old_name ≡ spec'.old_name) × (r.1 ≡ r'.1) × (r.2 ≡ r'.2)

abbrev pub old_names : List FileSpec → List Bytes
old_names [] = []
old_names (spec ∷ files) = spec.old_name ∷ old_names files

-- For two lists of specs that one text satisfies.
abbrev Determined :
    List FileSpec
    → List FileSpec
    → Ending × List (Option Bytes) × Source
    → Ending × List (Option Bytes) × Source
    → Type 0
Determined files files' r r' =
    r.0 ≡ finished
    → r'.0 ≡ finished
    → (old_names files ≡ old_names files') × (r.1 ≡ r'.1) × (read_unread_line r.2 ≡ none)

same_more :
    (files files' : List FileSpec) → length files ≡ length files' → has_more files ≡ has_more files'
same_more [] [] e = refl
same_more [] (spec ∷ files') e = absurd (ground (arith, e))
same_more (spec ∷ files) [] e = absurd (ground (arith, e))
same_more (spec ∷ files) (spec' ∷ files') e = refl

module _ (o : Options) (real_width : ℕ) where
  input_names-Same :
      (more : Bool) (spec spec' : FileSpec) (line1 : Bytes) (source : Source)
      → Same spec spec'
          (input_names o real_width more spec line1 source)
          (input_names o real_width more spec' line1 source)
  unfolding input_names Agree
  input_names-Same more spec spec' line1 source e e' =
      elim (Option-cases (read_unread_line source)) [
        | inl none' ↦ elim (Bool-cases more) [
          | inl on ↦ absurd (let bad = rw (input_names, none', on) at e in ground (arith, bad))
          | inr last ↦
              let (old, new) =
                process_single_line-Agree spec spec' o real_width line1
                  (rw (input_names, none', last) at e) (rw (input_names, none', last) at e') in
              rw (input_names, none', last) (old, new, refl)
        ]
        | inr ((line2, left), next) ↦
            elim (Bool-cases (blank_to (tab_index line2 real_width o.tabsize) line2)) [
              | inl two ↦
                  let (old, new) =
                    process_dual_line-Agree spec spec' o real_width line1 line2
                      (rw (input_names, next, two) at e) (rw (input_names, next, two) at e') in
                  rw (input_names, next, two) (old, new, refl)
              | inr one ↦
                  let (old, new) =
                    process_single_line-Agree spec spec' o real_width line1
                      (rw (input_names, next, one) at e) (rw (input_names, next, one) at e') in
                  rw (input_names, next, one) (old, new, refl)
            ]
      ]

  -- The three ends of `input_spec`, behind two results of `input_names`.
  ending_Same :
      (skip : Bool) (spec spec' : FileSpec) (r r' : Ending × Option Bytes × Source)
      → Same spec spec' r r'
      → Same spec spec'
          (elim r.0 as (λ x. Ending × Option Bytes × Source) [
            | finished ↦
                ((skip_empty o real_width skip r.2).0, r.1, (skip_empty o real_width skip r.2).1)
            | refused ↦ (refused, r.1, r.2)
            | crashed ↦ (crashed, r.1, r.2)
          ])
          (elim r'.0 as (λ x. Ending × Option Bytes × Source) [
            | finished ↦
                ((skip_empty o real_width skip r'.2).0, r'.1, (skip_empty o real_width skip r'.2).1)
            | refused ↦ (refused, r'.1, r'.2)
            | crashed ↦ (crashed, r'.1, r'.2)
          ])
  ending_Same skip spec spec' (finished, n, l) (finished, n', l') h e e' =
      let (old, new, left) = h refl refl in
      (old, new, ap (λ t. (skip_empty o real_width skip t).1) left)
  ending_Same skip spec spec' (finished, n, l) (refused, n', l') h e e' =
      absurd (ground (arith, e'))
  ending_Same skip spec spec' (finished, n, l) (crashed, n', l') h e e' =
      absurd (ground (arith, e'))
  ending_Same skip spec spec' (refused, n, l) r' h e e' = absurd (ground (arith, e))
  ending_Same skip spec spec' (crashed, n, l) r' h e e' = absurd (ground (arith, e))

  input_spec-Same :
      (more : Bool) (spec spec' : FileSpec) (source : Source)
      → Same spec spec'
          (input_spec o real_width more spec source)
          (input_spec o real_width more spec' source)
  unfolding input_spec
  input_spec-Same more spec spec' source = elim (Option-cases (read_unread_line source)) [
    | inl none' ↦ λ e e'. absurd (let bad = rw (input_spec, none') at e in ground (arith, bad))
    | inr ((line1, left), next) ↦
        rw (input_spec, next)
          (ending_Same (o.separate && more) spec spec'
            (input_names o real_width more spec line1 left)
            (input_names o real_width more spec' line1 left)
            (input_names-Same more spec spec' line1 left))
  ]

  -- The ends of a round of `input_each`, behind two results of `input_spec`.
  each_Determined :
      (spec spec' : FileSpec) (files files' : List FileSpec) (r r' : Ending × Option Bytes × Source)
      → Same spec spec' r r'
      → ((source : Source)
          → Determined files files'
              (input_each o real_width files source)
              (input_each o real_width files' source))
      → Determined
          (spec ∷ files)
          (spec' ∷ files')
          (elim r.0 as (λ x. Ending × List (Option Bytes) × Source) [
            | finished ↦ (
              (input_each o real_width files r.2).0,
              r.1 ∷ (input_each o real_width files r.2).1,
              (input_each o real_width files r.2).2,
            )
            | refused ↦ (refused, r.1 ∷ new_names files, r.2)
            | crashed ↦ (crashed, r.1 ∷ new_names files, r.2)
          ])
          (elim r'.0 as (λ x. Ending × List (Option Bytes) × Source) [
            | finished ↦ (
              (input_each o real_width files' r'.2).0,
              r'.1 ∷ (input_each o real_width files' r'.2).1,
              (input_each o real_width files' r'.2).2,
            )
            | refused ↦ (refused, r'.1 ∷ new_names files', r'.2)
            | crashed ↦ (crashed, r'.1 ∷ new_names files', r'.2)
          ])
  each_Determined spec spec' files files' (finished, n, l) (finished, n', l') h rest e e' =
      let (old, new, left) = h refl refl in
      let (olds, news, ended) = rest l e (rw left e') in
      (
        ap (λ t. t ∷ old_names files) old ∙ ap (λ t. spec'.old_name ∷ t) olds,
        ap (λ t. t ∷ (input_each o real_width files l).1) new
            ∙ ap (λ t. n' ∷ t) (news ∙ ap (λ t. (input_each o real_width files' t).1) left),
        ended,
      )
  each_Determined spec spec' files files' (finished, n, l) (refused, n', l') h rest e e' =
      absurd (ground (arith, e'))
  each_Determined spec spec' files files' (finished, n, l) (crashed, n', l') h rest e e' =
      absurd (ground (arith, e'))
  each_Determined spec spec' files files' (refused, n, l) r' h rest e e' =
      absurd (ground (arith, e))
  each_Determined spec spec' files files' (crashed, n, l) r' h rest e e' =
      absurd (ground (arith, e))

  input_each-Determined :
      (files files' : List FileSpec)
      → length files ≡ length files'
      → (source : Source)
      → Determined files files'
          (input_each o real_width files source)
          (input_each o real_width files' source)
  unfolding input_each
  input_each-Determined [] [] same source = elim (Option-cases (read_unread_line source)) [
    | inl none' ↦ rw (input_each, none') (λ e e'. (refl, refl, none'))
    | inr ((line, left), at) ↦ rw (input_each, at) (λ e e'. absurd (ground (arith, e)))
  ]
  input_each-Determined [] (spec' ∷ files') same source = absurd (ground (arith, same))
  input_each-Determined (spec ∷ files) [] same source = absurd (ground (arith, same))
  input_each-Determined (spec ∷ files) (spec' ∷ files') same source =
      let tail : length files ≡ length files' = omega arith in
      each_Determined spec spec' files files' (input_spec o real_width (has_more files) spec source)
        (input_spec o real_width (has_more files') spec' source)
        (rw (same_more files files' tail) (input_spec-Same (has_more files') spec spec' source))
        (input_each-Determined files files' tail)

-- The edit file says which names it is for: where `input` succeeds on one text with two lists of as
-- many specs, their old names are the same and so are the new names that it sets, and no line of the
-- text is left unread.
pub input_lem :
    (o : Options) (real_width : ℕ) (files files' : List FileSpec) (text : Bytes)
    → length files ≡ length files'
    → (input o real_width files text).0 ≡ finished
    → (input o real_width files' text).0 ≡ finished
    → (old_names files ≡ old_names files')
      × ((input o real_width files text).1 ≡ (input o real_width files' text).1)
      × (read_unread_line (input o real_width files text).2 ≡ none)
unfolding input
input_lem o real_width files files' text same e e' =
    input_each-Determined o real_width files files' same ([], text) e e'
