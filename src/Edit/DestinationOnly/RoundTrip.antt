-- ===== src/Edit/DestinationOnly/RoundTrip.antt =====
-- The names that destination-only.c writes are read back.
use renameutils.Common.{
  ℕ, Bool, false, ◌&&◌, List, [], ◌∷◌, ◌++◌, some, ◌≡◌, ◌≢◌, refl, sym, ap, ◌∙◌, if◌then◌else◌,
  Bytes, IsCString,
}
use renameutils.StringUtils.{newline}
use renameutils.Quote.{quote_output_file}
use renameutils.Quote.RoundTrip.{dequote-quote}
use renameutils.Quote.Printable.{PrintsAscii}
use renameutils.Plan.{FileSpec}
use renameutils.Edit.{Ending, finished, has_more}
use renameutils.Edit.Lines.{read_line_lem, chomp_line, skip_separator_lem, quoted-IsLine}
use renameutils.Edit.DestinationOnly.{output, update_spec, input_spec, input}

-- The specs of the text are those being read, but for their new names, which are not empty.
unfoldable pub Renamed : List FileSpec → List FileSpec → Type 0
Renamed [] [] = Unit
Renamed (spec ∷ files) (written ∷ texts) =
    (written ≡ record spec { new_name = written.new_name })
    × IsCString written.new_name
    × (written.new_name ≢ [])
    × Renamed files texts
Renamed _ _ = ⊥

has_more-Renamed :
    (files texts : List FileSpec) → Renamed files texts → has_more texts ≡ has_more files
unfolding Renamed
has_more-Renamed [] [] w = refl
has_more-Renamed (spec ∷ files) (written ∷ texts) w = refl
has_more-Renamed [] (written ∷ texts) w = absurd w
has_more-Renamed (spec ∷ files) [] w = absurd w

update_name :
    (spec : FileSpec) (name : Bytes)
    → name ≢ []
    → update_spec spec (some name) ≡ some (record spec { new_name = name })
unfolding update_spec
update_name spec [] h = absurd (h refl)
update_name spec (c ∷ s) h = refl

input_spec_lem :
    (is_print : ℕ → Bool) (separate more : Bool) (spec : FileSpec) (name rest : Bytes)
    → PrintsAscii is_print
    → is_print newline ≡ false
    → IsCString name
    → name ≢ []
    → input_spec separate more spec (
        quote_output_file is_print name
        ++ newline ∷ (if separate && more then newline ∷ rest else rest))
      ≡ (finished, record spec { new_name = name }, rest)
unfolding input_spec
input_spec_lem is_print separate more spec name rest p n h ne =
    let line = quote_output_file is_print name in
    rw
      (
        input_spec,
        read_line_lem line _ (quoted-IsLine is_print [] name p n tt h),
        skip_separator_lem (separate && more) rest,
        chomp_line line,
        dequote-quote is_print name h,
        update_name spec name ne,
      )
      refl

input_step :
    (separate : Bool) (spec spec' : FileSpec) (files : List FileSpec) (text text' : Bytes)
    → input_spec separate (has_more files) spec text ≡ (finished, spec', text')
    → input separate (spec ∷ files) text ≡ (
      (input separate files text').0,
      spec' ∷ (input separate files text').1,
      (input separate files text').2,
    )
unfolding input
input_step separate spec spec' files text text' e =
    let Result = Ending × FileSpec × Bytes in
    rw (input, ap (λ (r : Result). r.0) e, ap (λ (r : Result). r.1) e, ap (λ (r : Result). r.2) e)
      refl

-- Reading what was written gives every spec the new name that it was written with, and reads the text
-- to its end, with and without separating lines. The locale prints the backslash, the octal digits
-- and the lower case letters, and no newline; the new names are C strings, and none is empty.
pub destination_only_lem :
    (is_print : ℕ → Bool) (separate : Bool) (files texts : List FileSpec)
    → PrintsAscii is_print
    → is_print newline ≡ false
    → Renamed files texts
    → input separate files (output is_print separate texts) ≡ (finished, texts, [])
unfolding input output Renamed
destination_only_lem is_print separate [] [] p n w = refl
destination_only_lem is_print separate [] (written ∷ texts) p n w = absurd w
destination_only_lem is_print separate (spec ∷ files) [] p n w = absurd w
destination_only_lem is_print separate (spec ∷ files) (written ∷ texts) p n (e, hn, ne, w) =
    let rest = output is_print separate texts in
    let step =
      input_spec_lem is_print separate (has_more files) spec written.new_name rest p n hn ne
      ∙ ap (λ (t : FileSpec). (finished, t, rest)) (sym e) in
    rw (has_more-Renamed files texts w) (
      input_step separate spec written files _ rest step
      ∙ rw (destination_only_lem is_print separate files texts p n w) refl)
