-- ===== src/Edit/DualColumn/Agreement.antt =====
-- What the names on the lines of the dual-column format say of the spec they are for.
use renameutils.Common.{
  ℕ, Bool, true, false, Option, none, some, ◌≡◌, inl, inr, refl, sym, ◌∙◌, arith, Bytes, Bool-cases,
  Option-cases, str_eq, str_eq_iff, length, drop, if◌then◌else◌,
}
use renameutils.StringUtils.{chomp}
use renameutils.Quote.{dequote_output_file}
use renameutils.Plan.{FileSpec}
use renameutils.Edit.{Ending, finished, refused, crashed}
use renameutils.Edit.DualColumn.{
  Options, compare_names, swap_names, process_dual_line, process_single_line,
}

-- Two specs that the same lines satisfy have one old name, and get one new name.
unfoldable pub Agree : FileSpec → FileSpec → Ending × Option Bytes → Ending × Option Bytes → Type 0
Agree spec spec' r r' =
    r.0 ≡ finished → r'.0 ≡ finished → (spec.old_name ≡ spec'.old_name) × (r.1 ≡ r'.1)

module _ (spec spec' : FileSpec) where
  refused-Agree : (name name' : Option Bytes) → Agree spec spec' (refused, name) (refused, name')
  unfolding Agree
  refused-Agree name name' e e' = absurd (ground (arith, e))

  crashed-Agree : (name name' : Option Bytes) → Agree spec spec' (crashed, name) (crashed, name')
  unfolding Agree
  crashed-Agree name name' e e' = absurd (ground (arith, e))

  branch_Agree :
      (test : Bool) (r s r' s' : Ending × Option Bytes)
      → Agree spec spec' r r'
      → Agree spec spec' s s'
      → Agree spec spec' (if test then r else s) (if test then r' else s')
  branch_Agree true r s r' s' h k = h
  branch_Agree false r s r' s' h k = k

  compare_names-Agree :
      (old_name new_name : Option Bytes)
      → Agree spec spec'
          (compare_names spec old_name new_name)
          (compare_names spec' old_name new_name)
  unfolding compare_names Agree
  compare_names-Agree none new_name e e' = absurd (ground (arith, e))
  compare_names-Agree (some old_name) new_name e e' =
      elim (Bool-cases (str_eq spec.old_name old_name)) [
        | inr other ↦ absurd (let bad = rw other at e in ground (arith, bad))
        | inl one ↦ elim (Bool-cases (str_eq spec'.old_name old_name)) [
          | inr other ↦ absurd (let bad = rw other at e' in ground (arith, bad))
          | inl two ↦ (
            (str_eq_iff spec.old_name old_name).0 one
                ∙ sym ((str_eq_iff spec'.old_name old_name).0 two),
            rw (one, two) refl,
          )
        ]
      ]

  module _ (o : Options) (real_width : ℕ) where
    swap_names-Agree :
        (old_name new_name : Option Bytes)
        → Agree spec spec'
            (swap_names o real_width spec old_name new_name)
            (swap_names o real_width spec' old_name new_name)
    swap_names-Agree old_name new_name = search (branch_Agree, compare_names-Agree)

    pub process_single_line-Agree :
        (line : Bytes)
        → Agree spec spec'
            (process_single_line o real_width spec line)
            (process_single_line o real_width spec' line)
    unfolding process_single_line
    process_single_line-Agree line =
        search (branch_Agree, refused-Agree, crashed-Agree, swap_names-Agree) depth 8

    pub process_dual_line-Agree :
        (line1 line2 : Bytes)
        → Agree spec spec'
            (process_dual_line o real_width spec line1 line2)
            (process_dual_line o real_width spec' line1 line2)
    unfolding process_dual_line
    process_dual_line-Agree line1 line2 =
        elim (Option-cases (dequote_output_file (drop (length o.indicator1) (chomp line1)))) [
          | inl none' ↦ rw none' (search (branch_Agree, refused-Agree, crashed-Agree))
          | inr (name, e) ↦ rw e (search (branch_Agree, refused-Agree, swap_names-Agree) depth 8)
        ]
