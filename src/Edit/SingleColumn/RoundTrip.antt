-- ===== src/Edit/SingleColumn/RoundTrip.antt =====
-- The lines that single-column.c writes are read back as the names that they were written for.
use renameutils.Common.{
  ℕ, Bool, true, false, ◌&&◌, List, [], ◌∷◌, ◌++◌, Option, some, ◌≡◌, ◌≢◌, refl, sym, ap, ◌∙◌,
  arith, if◌then◌else◌, Bytes, length, drop, drop-append, str_eq, str_eq_iff, IsCString,
}
use renameutils.StringUtils.{newline, starts_with}
use renameutils.StringUtils.Affixes.{starts_with-append}
use renameutils.Quote.{quote_output_file, dequote_output_file}
use renameutils.Quote.Printable.{PrintsAscii, quote-IsCString}
use renameutils.Quote.RoundTrip.{dequote-quote}
use renameutils.Plan.{FileSpec}
use renameutils.Edit.{Ending, finished, has_more}
use renameutils.Edit.Lines.{IsLine, read_line_lem, chomp_line, skip_separator_lem, quoted-IsLine}
use renameutils.Edit.SingleColumn.{Options, output, update_spec, take_lines, input_spec, input}

-- One spec's text, in front of what follows it.
entry : (ℕ → Bool) → Options → FileSpec → Bool → Bytes → Bytes
entry is_print o spec more rest =
    (o.indicator1 ++ quote_output_file is_print spec.old_name)
    ++ newline
      ∷ ((o.indicator2 ++ quote_output_file is_print spec.new_name)
          ++ newline ∷ (if o.separate && more then newline ∷ rest else rest))

input_spec-entry :
    (is_print : ℕ → Bool) (o : Options) (spec written : FileSpec) (more : Bool) (rest : Bytes)
    → IsLine (o.indicator1 ++ quote_output_file is_print written.old_name)
    → IsLine (o.indicator2 ++ quote_output_file is_print written.new_name)
    → input_spec o more spec (entry is_print o written more rest) ≡ (
      (take_lines o spec
          (o.indicator1 ++ quote_output_file is_print written.old_name)
          (o.indicator2 ++ quote_output_file is_print written.new_name)).0,
      (take_lines o spec
          (o.indicator1 ++ quote_output_file is_print written.old_name)
          (o.indicator2 ++ quote_output_file is_print written.new_name)).1,
      rest,
    )
unfolding input_spec entry
input_spec-entry is_print o spec written more rest h1 h2 =
    let line1 = o.indicator1 ++ quote_output_file is_print written.old_name in
    let line2 = o.indicator2 ++ quote_output_file is_print written.new_name in
    rw
      (
        input_spec,
        entry,
        read_line_lem line1 _ h1,
        read_line_lem line2 _ h2,
        skip_separator_lem (o.separate && more) rest,
        chomp_line line1,
        chomp_line line2,
      )
      refl

-- The locale prints what quoting writes, and no newline; and the indicators are lines.
pub record Usable (is_print : ℕ → Bool) (o : Options) : Type 0 where
  pub ascii : PrintsAscii is_print
  pub unprinted : is_print newline ≡ false
  pub string1 : IsCString o.indicator1
  pub string2 : IsCString o.indicator2
  pub line1 : IsLine o.indicator1
  pub line2 : IsLine o.indicator2

-- What a quoted name behind an indicator is taken for.
indicated :
    (is_print : ℕ → Bool) (indicator name : Bytes)
    → IsCString indicator
    → IsCString name
    → (starts_with (indicator ++ quote_output_file is_print name) indicator ≡ true)
      × (dequote_output_file
            (drop (length indicator) (indicator ++ quote_output_file is_print name))
          ≡ some name)
indicated is_print indicator name hi hn = (
  starts_with-append indicator (quote_output_file is_print name) hi
      (quote-IsCString is_print name hn),
  ap dequote_output_file (drop-append indicator (quote_output_file is_print name))
      ∙ dequote-quote is_print name hn,
)

update_same :
    (spec : FileSpec) (old new : Bytes)
    → old ≡ spec.old_name
    → new ≢ []
    → update_spec spec (some old) (some new) ≡ some (record spec { new_name = new })
unfolding update_spec
update_same spec old [] e h = absurd (h refl)
update_same spec old (c ∷ s) e h = rw (update_spec, (str_eq_iff old spec.old_name).1 e) refl

update_other :
    (spec : FileSpec) (old : Bytes) (new : Option Bytes)
    → old ≢ spec.old_name
    → update_spec spec (some old) new ≡ some spec
unfolding update_spec
update_other spec old new h =
    let e : str_eq old spec.old_name ≡ false = ground (arith, str_eq_iff old spec.old_name) in
    rw (update_spec, e) refl

module _ (is_print : ℕ → Bool) (o : Options) (u : Usable is_print o) where
  take_lines_lem :
      (spec : FileSpec) (old new : Bytes)
      → IsCString old
      → IsCString new
      → o.swap ≡ false
      → old ≡ spec.old_name
      → new ≢ []
      → take_lines o spec
          (o.indicator1 ++ quote_output_file is_print old)
          (o.indicator2 ++ quote_output_file is_print new)
        ≡ (finished, record spec { new_name = new })
  unfolding take_lines
  take_lines_lem spec old new ho hn plain e h =
      let first = indicated is_print o.indicator1 old u.string1 ho in
      let second = indicated is_print o.indicator2 new u.string2 hn in
      rw (take_lines, first.0, second.0, first.1, second.1, plain, update_same spec old new e h)
        refl

  take_lines_swapped :
      (spec : FileSpec) (old new : Bytes)
      → IsCString old
      → IsCString new
      → o.swap ≡ true
      → new ≢ spec.old_name
      → take_lines o spec
          (o.indicator1 ++ quote_output_file is_print old)
          (o.indicator2 ++ quote_output_file is_print new)
        ≡ (finished, spec)
  unfolding take_lines
  take_lines_swapped spec old new ho hn swapped h =
      let first = indicated is_print o.indicator1 old u.string1 ho in
      let second = indicated is_print o.indicator2 new u.string2 hn in
      rw
        (
          take_lines,
          first.0,
          second.0,
          first.1,
          second.1,
          swapped,
          update_other spec new (some old) h,
        )
        refl

  entry_read :
      (spec written : FileSpec) (more : Bool) (rest : Bytes)
      → IsCString written.old_name
      → IsCString written.new_name
      → input_spec o more spec (entry is_print o written more rest) ≡ (
        (take_lines o spec
            (o.indicator1 ++ quote_output_file is_print written.old_name)
            (o.indicator2 ++ quote_output_file is_print written.new_name)).0,
        (take_lines o spec
            (o.indicator1 ++ quote_output_file is_print written.old_name)
            (o.indicator2 ++ quote_output_file is_print written.new_name)).1,
        rest,
      )
  entry_read spec written more rest ho hn =
      input_spec-entry is_print o spec written more rest
        (quoted-IsLine is_print o.indicator1 written.old_name u.ascii u.unprinted u.line1 ho)
        (quoted-IsLine is_print o.indicator2 written.new_name u.ascii u.unprinted u.line2 hn)

-- The specs of the text are those being read, but for their new names, which are not empty.
unfoldable pub Written : List FileSpec → List FileSpec → Type 0
Written [] [] = Unit
Written (spec ∷ files) (written ∷ texts) =
    (written ≡ record spec { new_name = written.new_name })
    × IsCString written.old_name
    × IsCString written.new_name
    × (written.new_name ≢ [])
    × Written files texts
Written _ _ = ⊥

input_step :
    (o : Options) (spec spec' : FileSpec) (files : List FileSpec) (text text' : Bytes)
    → input_spec o (has_more files) spec text ≡ (finished, spec', text')
    → input o (spec ∷ files) text
      ≡ ((input o files text').0, spec' ∷ (input o files text').1, (input o files text').2)
unfolding input
input_step o spec spec' files text text' e =
    let Result = Ending × FileSpec × Bytes in
    rw (input, ap (λ (r : Result). r.0) e, ap (λ (r : Result). r.1) e, ap (λ (r : Result). r.2) e)
      refl

has_more-Written :
    (files texts : List FileSpec) → Written files texts → has_more texts ≡ has_more files
unfolding Written
has_more-Written [] [] w = refl
has_more-Written (spec ∷ files) (written ∷ texts) w = refl
has_more-Written [] (written ∷ texts) w = absurd w
has_more-Written (spec ∷ files) [] w = absurd w

-- Without `swap`, reading what was written gives every spec the new name that it was written with, and
-- reads the text to its end. The locale prints the backslash, the octal digits and the lower case
-- letters, and no newline; the indicators and the names are C strings, the indicators have no
-- newline, and no new name is empty.
pub input-output :
    (is_print : ℕ → Bool) (o : Options) (files texts : List FileSpec)
    → Usable is_print o
    → o.swap ≡ false
    → Written files texts
    → input o files (output is_print o texts) ≡ (finished, texts, [])
unfolding input output Written entry
input-output is_print o [] [] u plain w = refl
input-output is_print o [] (written ∷ texts) u plain w = absurd w
input-output is_print o (spec ∷ files) [] u plain w = absurd w
input-output is_print o (spec ∷ files) (written ∷ texts) u plain (e, ho, hn, ne, w) =
    let rest = output is_print o texts in
    let taken =
      take_lines_lem is_print o u spec written.old_name written.new_name ho hn plain
        (ap (λ (t : FileSpec). t.old_name) e) ne
      ∙ ap (λ (t : FileSpec). (finished, t)) (sym e) in
    let Result = Ending × FileSpec in
    let step =
      entry_read is_print o u spec written (has_more files) rest ho hn
      ∙ ap (λ (r : Result). (r.0, r.1, rest)) taken in
    rw (has_more-Written files texts w) (
      input_step o spec written files _ rest step
      ∙ rw (input-output is_print o files texts u plain w) refl)

-- With `swap`, a new name that is not the old one is lost: what is written for a spec with such a name,
-- and read back for that spec as it was before, leaves it as it was. The locale, the indicators and
-- the names are as for `input-output`.
pub input-output_swap :
    (is_print : ℕ → Bool) (o : Options) (spec : FileSpec)
    → Usable is_print o
    → o.swap ≡ true
    → IsCString spec.old_name
    → IsCString spec.new_name
    → spec.new_name ≢ spec.old_name
    → (file : FileSpec) → file ≡ record spec { new_name = spec.old_name }
    → input o (file ∷ []) (output is_print o (spec ∷ [])) ≡ (finished, file ∷ [], [])
unfolding input output entry
input-output_swap is_print o spec u swapped ho hn ne file e =
    let Result = Ending × FileSpec in
    let taken =
      take_lines_swapped is_print o u file spec.old_name spec.new_name ho hn swapped
        (λ same. ne (same ∙ ap (λ (t : FileSpec). t.old_name) e)) in
    input_step o file file [] _ []
      (entry_read is_print o u file spec false [] ho hn ∙ ap (λ (r : Result). (r.0, r.1, [])) taken)
