-- ===== src/Edit/Lines.antt =====
-- A line that was written is read back.
use mathlib.Core.Bool.{true≢false}
use renameutils.Common.{
  ℕ, Bool, true, false, [], ◌∷◌, ◌++◌, some, ◌≡◌, ◌≢◌, refl, sym, ap, ◌∙◌, arith, IsCString, ◌==◌,
  ==_iff, if◌then◌else◌, Bytes, All, All-append,
}
use renameutils.StringUtils.{newline, chomp}
use renameutils.StringUtils.Strip.{chomp-append}
use renameutils.Quote.{quote_output_file}
use renameutils.Quote.Printable.{PrintsAscii, IsPrinted, quote-IsPrinted}
use renameutils.Edit.{read_line, skip_separator}

-- No newline inside.
abbrev pub IsLine : Bytes → Type 0
IsLine = All (λ c. c ≢ newline)

pub read_line_lem :
    (line rest : Bytes)
    → IsLine line
    → read_line (line ++ newline ∷ rest) ≡ some (line ++ newline ∷ [], rest)
unfolding read_line
read_line_lem [] rest h = refl
read_line_lem (c ∷ line) rest (hc, hl) =
    let off : (c == newline) ≡ false = ground (arith, ==_iff c newline) in
    rw (off, read_line_lem line rest hl) refl

pub chomp_line : (line : Bytes) → chomp (line ++ newline ∷ []) ≡ line
chomp_line line = (chomp-append line 0).0

pub skip_separator_lem :
    (separate : Bool) (rest : Bytes)
    → skip_separator separate (if separate then newline ∷ rest else rest) ≡ some rest
unfolding skip_separator read_line chomp
skip_separator_lem true rest = refl
skip_separator_lem false rest = refl

IsPrinted-IsLine :
    (is_print : ℕ → Bool) (t : Bytes) → is_print newline ≡ false → IsPrinted is_print t → IsLine t
IsPrinted-IsLine is_print [] n h = tt
IsPrinted-IsLine is_print (c ∷ t) n (hc, ht) =
    (λ e. true≢false (sym hc ∙ ap is_print e ∙ n), IsPrinted-IsLine is_print t n ht)

pub quoted-IsLine :
    (is_print : ℕ → Bool) (indicator name : Bytes)
    → PrintsAscii is_print
    → is_print newline ≡ false
    → IsLine indicator
    → IsCString name
    → IsLine (indicator ++ quote_output_file is_print name)
quoted-IsLine is_print indicator name p n hi hn =
    All-append _ indicator _ hi (IsPrinted-IsLine is_print _ n (quote-IsPrinted is_print p name hn))
