-- ===== src/Quote/Tests.antt =====
-- Runs of the quoting functions, and their theorems at a concrete file name.
use renameutils.Common.{
  ℕ, Bool, ◌&&◌, [], ◌∷◌, none, some, ◌≡◌, refl, arith, leb, Bytes, codes, IsCString,
}
use renameutils.Quote.{backslash, quote_output_file, dequote_output_file}
use renameutils.Quote.RoundTrip.{dequote-quote}
use renameutils.Quote.Printable.{PrintsAscii, IsPrinted, quote-IsPrinted, dequote-IsCString}

-- `isprint` of the "C" locale
abbrev c_locale : ℕ → Bool
c_locale c = leb 32 c && leb c 126

-- A name with a tab, a backslash, a newline and the byte 0xE9.
abbrev odd_name : Bytes
odd_name = b'a' ∷ 9 ∷ backslash ∷ 10 ∷ 233 ∷ []

odd_name_quoted : quote_output_file c_locale odd_name ≡ codes "a\\t\\\\\\n\\351"
unfolding quote_output_file
odd_name_quoted = refl

truncated_octal : dequote_output_file (codes "a\\35") ≡ none
unfolding dequote_output_file
truncated_octal = refl

octal_zero : dequote_output_file (codes "a\\400b") ≡ some (codes "ab")
unfolding dequote_output_file
octal_zero = refl

c_locale-PrintsAscii : PrintsAscii c_locale
c_locale-PrintsAscii = record {
  prints_backslash = refl;
  prints_octal = λ c p q. ground arith;
  prints_lower = λ c p q. ground arith;
}

dequote-quote_example : dequote_output_file (quote_output_file c_locale odd_name) ≡ some odd_name
dequote-quote_example = dequote-quote c_locale odd_name (omega arith)

quote-IsPrinted_example : IsPrinted c_locale (quote_output_file c_locale odd_name)
quote-IsPrinted_example = quote-IsPrinted c_locale c_locale-PrintsAscii odd_name (omega arith)

dequote-IsCString_example : IsCString (codes "ab")
dequote-IsCString_example = dequote-IsCString (codes "a\\400b") (omega arith) octal_zero
