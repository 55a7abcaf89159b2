-- ===== src/Quote/Printable.antt =====
-- What quoted and dequoted text holds.
use mathlib.Core.Option.{map}
use renameutils.Common.{
  ℕ, ◌<◌, ◌≤◌, ◌-◌, zero, suc, Bool, true, false, [], ◌∷◌, Option, none, some, ◌≡◌, arith, Bytes,
  get_or, All, All-append, IsByte, IsCString, strchr, ◌==◌, ◌&&◌,
}
use renameutils.Quote.{
  backslash, c_abbrevs, octal_to_char, append_char, format_octal, quote_char, is_octal_digit,
  quote_output_file, unabbreviate, dequote_output_file, dequote_escape, dequote_octal,
}

-- What the "C" locale prints of the bytes that quoting itself writes.
pub record PrintsAscii (is_print : ℕ → Bool) : Type 0 where
  pub prints_backslash : is_print backslash ≡ true
  pub prints_octal : (c : ℕ) → b'0' ≤ c → c ≤ b'7' → is_print c ≡ true
  pub prints_lower : (c : ℕ) → b'a' ≤ c → c ≤ b'z' → is_print c ≡ true

abbrev pub IsPrinted : (ℕ → Bool) → Bytes → Type 0
IsPrinted is_print = All (λ c. is_print c ≡ true)

abbrev_lower : (k : ℕ) → k < 7 → (b'a' ≤ get_or c_abbrevs k 0) × (get_or c_abbrevs k 0 ≤ b'z')
abbrev_lower zero h = omega arith
abbrev_lower (suc zero) h = omega arith
abbrev_lower (suc (suc zero)) h = omega arith
abbrev_lower (suc (suc (suc zero))) h = omega arith
abbrev_lower (suc (suc (suc (suc zero)))) h = omega arith
abbrev_lower (suc (suc (suc (suc (suc zero))))) h = omega arith
abbrev_lower (suc (suc (suc (suc (suc (suc zero)))))) h = omega arith
abbrev_lower (suc (suc (suc (suc (suc (suc (suc k))))))) h = absurd (omega arith)

module _ (is_print : ℕ → Bool) (p : PrintsAscii is_print) where
  format_octal-IsPrinted : (c : ℕ) → IsByte c → IsPrinted is_print (format_octal c)
  unfolding format_octal
  format_octal-IsPrinted c h = (
    p.prints_octal _ (omega arith) (omega arith),
    (
      p.prints_octal _ (omega arith) (omega arith),
      (p.prints_octal _ (omega arith) (omega arith), tt),
    ),
  )

  quote_char-IsPrinted : (c : ℕ) → IsByte c → IsPrinted is_print (quote_char is_print c)
  unfolding quote_char
  quote_char-IsPrinted c h =
      let k = abbrev_lower (c - 7) in
      ground (
        arith,
        format_octal-IsPrinted c h,
        p.prints_backslash,
        k,
        p.prints_lower (get_or c_abbrevs (c - 7) 0),
      )

-- A quoted file name is printable text, so it has no newline, tab or other control character, where
-- the locale prints the backslash, the octal digits and the lower case letters.
pub quote-IsPrinted :
    (is_print : ℕ → Bool)
    → PrintsAscii is_print
    → (t : Bytes) → IsCString t
    → IsPrinted is_print (quote_output_file is_print t)
unfolding quote_output_file
quote-IsPrinted is_print p [] h = tt
quote-IsPrinted is_print p (c ∷ t) (hc, ht) =
    All-append _ (quote_char is_print c) _ (quote_char-IsPrinted is_print p c hc)
      (quote-IsPrinted is_print p t ht)

abbrev-IsByte : (k : ℕ) → k < 7 → IsByte (get_or c_abbrevs k 0)
abbrev-IsByte k h = let l = abbrev_lower k h in omega arith

quote_char-IsCString : (is_print : ℕ → Bool) (c : ℕ) → IsByte c → IsCString (quote_char is_print c)
unfolding quote_char format_octal
quote_char-IsCString is_print c h = ground (arith, abbrev-IsByte (c - 7))

-- Quoting writes no null byte.
pub quote-IsCString :
    (is_print : ℕ → Bool) (t : Bytes) → IsCString t → IsCString (quote_output_file is_print t)
unfolding quote_output_file
quote-IsCString is_print [] h = tt
quote-IsCString is_print (c ∷ t) (hc, ht) =
    All-append _ (quote_char is_print c) _ (quote_char-IsCString is_print c hc)
      (quote-IsCString is_print t ht)

abbrev WhenSome : (Bytes → Type 0) → Option Bytes → Type 0
WhenSome P none = Unit
WhenSome P (some t) = P t

WhenSome-branch :
    (P : Bytes → Type 0) (b : Bool) (x y : Option Bytes)
    → WhenSome P x
    → WhenSome P y
    → WhenSome P (elim b [ true ↦ x | false ↦ y ])
WhenSome-branch P true x y hx hy = hx
WhenSome-branch P false x y hx hy = hy

push-IsCString :
    (c : ℕ) (o : Option Bytes)
    → c < 256
    → WhenSome IsCString o
    → WhenSome IsCString (map (append_char c) o)
unfolding append_char
push-IsCString c none h k = tt
push-IsCString zero (some t) h k = k
push-IsCString (suc c) (some t) h k = ground arith

unabbreviate-lt : (c : ℕ) → c < 256 → unabbreviate c < 256
unfolding unabbreviate strchr
unabbreviate-lt c h = ground arith

octal_to_char-lt : (a b d : ℕ) → octal_to_char a b d < 256
unfolding octal_to_char
octal_to_char-lt a b d = omega arith

mutual
  unfolding dequote_output_file dequote_escape dequote_octal

  dequote_when : (s : Bytes) → IsCString s → WhenSome IsCString (dequote_output_file s)
  dequote_when [] h = tt
  dequote_when (c ∷ s) (hc, hs) =
      WhenSome-branch IsCString (c == backslash) _ _ (escape_when s hs)
        (push-IsCString c (dequote_output_file s) hc.1 (dequote_when s hs))

  escape_when : (s : Bytes) → IsCString s → WhenSome IsCString (dequote_escape s)
  escape_when [] h = tt
  escape_when (c ∷ s) (hc, hs) =
      WhenSome-branch IsCString (is_octal_digit c) _ _ (octal_when c s hs)
        (push-IsCString _ (dequote_output_file s) (unabbreviate-lt c hc.1) (dequote_when s hs))

  octal_when : (a : ℕ) (s : Bytes) → IsCString s → WhenSome IsCString (dequote_octal a s)
  octal_when a [] h = tt
  octal_when a (b ∷ []) h = tt
  octal_when a (b ∷ d ∷ s) (hb, (hd, hs)) =
      WhenSome-branch IsCString (is_octal_digit b && is_octal_digit d) _ none
        (push-IsCString _ (dequote_output_file s) (octal_to_char-lt a b d) (dequote_when s hs)) tt

-- Dequoting a C string gives a C string: no escape, not even `\000` or `\400`, puts a null byte into
-- the result.
pub dequote-IsCString :
    (s : Bytes) {t : Bytes} → IsCString s → dequote_output_file s ≡ some t → IsCString t
dequote-IsCString s h e = rw e at (dequote_when s h)
