-- ===== src/Edit/DualColumn/Columns.antt =====
-- The columns that the dual-column format writes.
use renameutils.Common.{
  ℕ, ◌+◌, ◌-◌, ◌≤◌, ◌<◌, Bool, true, false, [], ◌∷◌, ◌++◌, ◌≡◌, refl, ap, ◌∙◌, arith, leb, ◌==◌,
  Bytes, length, Bool-cases, inl, inr, append-nil,
}
use renameutils.StringUtils.{newline}
use renameutils.TabUtils.{next_stop, output_tabs, tab_to}
use renameutils.TabUtils.Columns.{next_stop-later}
use renameutils.Quote.{quote_output_file}
use renameutils.Plan.{FileSpec}
use renameutils.Edit.DualColumn.{
  Options, quote_first_last, max, tabs, prepare, output_names, output_each, output,
}

-- No column is reached from one that is not before it.
tab_to_none : (from to tabsize : ℕ) → to ≤ from → tab_to from to tabsize ≡ []
unfolding tab_to output_tabs
tab_to_none from to tabsize h =
    let none' : to - from ≡ 0 = omega arith in
    elim (Bool-cases (tabsize == 0)) [
      | inl spaces ↦ rw (spaces, none') refl
      | inr tabs' ↦
          let later = next_stop-later from tabsize (ground arith) in
          let stop : leb (next_stop from tabsize) to ≡ false = ground (arith, later) in
          rw (tabs', stop, none') refl
    ]

module _ (is_print : ℕ → Bool) (o : Options) where
  tabs_none : (from to : ℕ) → to ≤ from → tabs is_print o from to ≡ []
  tabs_none from to h = tab_to_none from to _ h

  one_line :
      (real_width : ℕ) (old_name new_name : Bytes)
      → length old_name < real_width + length o.indicator1
      → real_width ≤ length old_name + length o.indicator1
      → output_names is_print o real_width old_name new_name
        ≡ o.indicator1 ++ old_name ++ o.indicator2 ++ new_name ++ newline ∷ []
  unfolding output_names
  one_line real_width old_name new_name short full =
      let fits : leb (real_width + length o.indicator1) (length old_name) ≡ false = ground arith in
      let none' = tabs_none (length old_name + length o.indicator1) real_width full in
      rw fits (
        ap (λ t. o.indicator1 ++ old_name ++ t ++ o.indicator2 ++ new_name ++ newline ∷ []) none'
        ∙ ap (λ t. t ++ o.indicator2 ++ new_name ++ newline ∷ [])
            (append-nil (o.indicator1 ++ old_name)))

-- With `autowidth` and a first indicator that is not empty, no blank stands before the new name of the
-- longest old name: the line of a spec whose quoted old name has the given width or more, written
-- alone and without `swap`, is the indicators and the names alone.
pub output-quote_first_last :
    (is_print : ℕ → Bool) (o : Options) (spec : FileSpec)
    → o.autowidth ≡ true
    → o.swap ≡ false
    → 0 < length o.indicator1
    → o.width
      ≤ length (quote_first_last o.width o.tabsize (quote_output_file is_print spec.old_name))
    → (output is_print o (spec ∷ [])).0
      ≡ o.indicator1
        ++ quote_first_last o.width o.tabsize (quote_output_file is_print spec.old_name)
        ++ o.indicator2
        ++ quote_output_file is_print spec.new_name
        ++ newline ∷ []
unfolding output prepare output_each output_names
output-quote_first_last is_print o spec auto forward marked long =
    let old_name = quote_first_last o.width o.tabsize (quote_output_file is_print spec.old_name) in
    let wide : max o.width (length old_name + 1) ≡ length old_name + 1 = ground arith in
    rw (auto, forward, wide)
      (one_line is_print o (length old_name + 1) old_name (quote_output_file is_print spec.new_name)
        (omega arith) (omega arith))
