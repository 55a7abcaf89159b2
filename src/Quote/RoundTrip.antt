-- ===== src/Quote/RoundTrip.antt =====
-- Dequoting undoes quoting.
use mathlib.Core.Option.{map}
use renameutils.Common.{
  ℕ, ◌+◌, ◌-◌, ◌<◌, Bool, false, [], ◌∷◌, ◌++◌, some, ◌≡◌, refl, arith, ◌==◌, Bytes, get_or, IsByte,
  IsCString, strchr, zero, suc,
}
use renameutils.Quote.{
  backslash, c_abbrevs, append_char, format_octal, quote_char, quote_output_file,
  dequote_output_file,
}

module _ (rest : Bytes) where
  dequote-octal :
      (c : ℕ)
      → IsByte c
      → dequote_output_file (backslash ∷ format_octal c ++ rest)
        ≡ map (append_char c) (dequote_output_file rest)
  unfolding dequote_output_file format_octal
  dequote-octal c h = ground arith

  dequote_abbrev :
      (k : ℕ)
      → k < 7
      → dequote_output_file (backslash ∷ get_or c_abbrevs k 0 ∷ rest)
        ≡ map (append_char (7 + k)) (dequote_output_file rest)
  unfolding dequote_output_file strchr
  dequote_abbrev zero h = refl
  dequote_abbrev (suc zero) h = refl
  dequote_abbrev (suc (suc zero)) h = refl
  dequote_abbrev (suc (suc (suc zero))) h = refl
  dequote_abbrev (suc (suc (suc (suc zero)))) h = refl
  dequote_abbrev (suc (suc (suc (suc (suc zero))))) h = refl
  dequote_abbrev (suc (suc (suc (suc (suc (suc zero)))))) h = refl
  dequote_abbrev (suc (suc (suc (suc (suc (suc (suc k))))))) h = absurd (omega arith)

  dequote_plain :
      (c : ℕ)
      → (c == backslash) ≡ false
      → dequote_output_file (c ∷ rest) ≡ map (append_char c) (dequote_output_file rest)
  unfolding dequote_output_file
  dequote_plain c h = ground arith

  dequote_backslash :
      dequote_output_file (backslash ∷ backslash ∷ rest)
      ≡ map (append_char backslash) (dequote_output_file rest)
  unfolding dequote_output_file
  dequote_backslash = refl

  dequote-quote_char :
      (is_print : ℕ → Bool) (c : ℕ)
      → IsByte c
      → dequote_output_file (quote_char is_print c ++ rest)
        ≡ map (append_char c) (dequote_output_file rest)
  unfolding quote_char
  dequote-quote_char is_print c h =
      ground (arith, dequote-octal c h, dequote_abbrev (c - 7), dequote_plain c, dequote_backslash)

append_char-byte : (c : ℕ) (t : Bytes) → IsByte c → append_char c t ≡ c ∷ t
unfolding append_char
append_char-byte c t h = ground arith

-- A quoted file name, which is a C string, is dequoted to itself, whatever the locale holds to be printable.
pub dequote-quote :
    (is_print : ℕ → Bool) (t : Bytes)
    → IsCString t
    → dequote_output_file (quote_output_file is_print t) ≡ some t
unfolding quote_output_file
dequote-quote is_print [] _ = unfold dequote_output_file in refl
dequote-quote is_print (c ∷ t) (hc, ht) =
    rw (dequote-quote_char _ is_print c hc, dequote-quote is_print t ht, append_char-byte c t hc)
