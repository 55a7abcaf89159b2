-- ===== src/Quote.antt =====
-- src/quote.c: file names are quoted for the edit file, and dequoted when it is read back.
--
-- `isprint` depends on the locale: it is the parameter `is_print`, a test on bytes. A string buffer
-- is the bytes appended so far.
pub mod RoundTrip
pub mod Printable
mod Tests
use mathlib.Core.Option.{map}
use renameutils.Common.{
  ℕ, ◌+◌, ◌-◌, ◌*◌, ◌/◌, ◌%◌, Bool, true, false, ◌&&◌, List, [], ◌∷◌, ◌++◌, Option, none, some, leb,
  ◌==◌, if◌then◌else◌, Bytes, codes, get_or, strchr,
}

abbrev pub backslash : ℕ
backslash = b'\\'

-- The letters of `\a \b \t \n \v \f \r`, which stand for the bytes 7 to 13.
abbrev pub c_abbrevs : Bytes
c_abbrevs = codes "abtnvfr"

unfoldable pub is_octal_digit : ℕ → Bool
is_octal_digit c = leb b'0' c && leb c b'7'

-- The conversion to `char` keeps the low eight bits.
unfoldable pub octal_to_char : ℕ → ℕ → ℕ → ℕ
octal_to_char a b c = ((a - b'0') * 64 + (b - b'0') * 8 + (c - b'0')) % 256

-- `strbuf_append_char`, seen from the front of the result. The byte is measured by `strnlen`, so a
-- null byte appends nothing.
unfoldable pub append_char : ℕ → Bytes → Bytes
append_char c rest = if c == 0 then rest else c ∷ rest

-- `%03o` of a byte
unfoldable pub format_octal : ℕ → Bytes
format_octal c = (b'0' + c / 64) ∷ (b'0' + c / 8 % 8) ∷ (b'0' + c % 8) ∷ []

module _ (is_print : ℕ → Bool) where
  -- What one round of the loop appends.
  unfoldable pub quote_char : ℕ → Bytes
  unfolding format_octal
  quote_char c =
      if c == backslash
      then backslash ∷ backslash ∷ []
      else if is_print c
      then c ∷ []
      else if leb 7 c && leb c 13
      then backslash ∷ get_or c_abbrevs (c - 7) 0 ∷ []
      else backslash ∷ format_octal c

  unfoldable pub quote_output_file : Bytes → Bytes
  unfolding quote_char
  quote_output_file [] = []
  quote_output_file (c ∷ t) = quote_char c ++ quote_output_file t

-- The byte for a character behind a backslash that is no octal digit.
unfoldable pub unabbreviate : ℕ → ℕ
unfolding strchr
unabbreviate c = elim (strchr c_abbrevs c) [ none ↦ c | some i ↦ 7 + i ]

-- `dequote` is the loop at a round's start, `dequote_escape` behind a backslash and
-- `dequote_octal` behind the octal digit `a`. `none` is the null pointer.
unfoldable mutual
  unfolding is_octal_digit octal_to_char append_char unabbreviate

  pub dequote_output_file : Bytes → Option Bytes
  dequote_output_file [] = some []
  dequote_output_file (c ∷ s) = elim (c == backslash) [
    | true ↦ dequote_escape s
    | false ↦ map (append_char c) (dequote_output_file s)
  ]

  pub dequote_escape : Bytes → Option Bytes
  dequote_escape [] = none
  dequote_escape (a ∷ s) = elim (is_octal_digit a) [
    | true ↦ dequote_octal a s
    | false ↦ map (append_char (unabbreviate a)) (dequote_output_file s)
  ]

  pub dequote_octal : ℕ → Bytes → Option Bytes
  dequote_octal a [] = none
  dequote_octal a (b ∷ []) = none
  dequote_octal a (b ∷ d ∷ s) = elim (is_octal_digit b && is_octal_digit d) [
    | true ↦ map (append_char (octal_to_char a b d)) (dequote_output_file s)
    | false ↦ none
  ]
