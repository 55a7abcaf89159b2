-- ===== src/StringUtils/Strip.antt =====
-- What the functions that drop bytes at an end of a string leave.
use renameutils.Common.{
  ℕ, ◌+◌, ◌-◌, true, false, [], ◌∷◌, ◌++◌, ◌≡◌, ◌≢◌, refl, ap, ◌∙◌, arith, ◌==◌, if◌then◌else◌,
  Bytes, length, get_or, take, length-append, All, Bool-cases, inl, inr,
}
use renameutils.StringUtils.{
  newline, chomp, is_listed, strip_from_end, string_strip_trailing, string_strip_leading,
  translate_char,
}

pub take-append : (s t : Bytes) → take (length s) (s ++ t) ≡ s
take-append [] [] = refl
take-append [] (c ∷ t) = refl
take-append (c ∷ s) t = ap (λ r. c ∷ r) (take-append s t)

get_or-length : (s : Bytes) (c : ℕ) → get_or (s ++ c ∷ []) (length s) 0 ≡ c
get_or-length [] c = refl
get_or-length (d ∷ s) c = get_or-length s c

chomp_last : (s : Bytes) (c : ℕ) → chomp (s ++ c ∷ []) ≡ (if c == newline then s else s ++ c ∷ [])
unfolding chomp
chomp_last s c =
    let size = length-append s (c ∷ []) in
    let n : length (s ++ c ∷ []) - 1 ≡ length s = omega (arith, size) in
    let last : get_or (s ++ c ∷ []) (length (s ++ c ∷ []) - 1) 0 ≡ c = rw n (get_or-length s c) in
    let front : take (length (s ++ c ∷ []) - 1) (s ++ c ∷ []) ≡ s = rw n (take-append s (c ∷ [])) in
    ground (arith, size, last, front)

-- One newline at the end goes, and any other last byte stays; the empty string stays too.
pub chomp-append :
    (s : Bytes) (c : ℕ)
    → (chomp (s ++ newline ∷ []) ≡ s)
      × (c ≢ newline → chomp (s ++ c ∷ []) ≡ s ++ c ∷ [])
      × (chomp [] ≡ [])
unfolding chomp
chomp-append s c = (chomp_last s newline, λ h. rw chomp_last (ground arith), refl)

abbrev pub IsListed : Bytes → ℕ → Type 0
IsListed chars c = is_listed chars c ≡ true

-- The last byte, if there is one, is not listed.
abbrev pub EndsUnlisted : Bytes → Bytes → Type 0
EndsUnlisted chars [] = Unit
EndsUnlisted chars (c ∷ []) = is_listed chars c ≡ false
EndsUnlisted chars (c ∷ d ∷ s) = EndsUnlisted chars (d ∷ s)

abbrev StartsUnlisted : Bytes → Bytes → Type 0
StartsUnlisted chars [] = Unit
StartsUnlisted chars (c ∷ s) = is_listed chars c ≡ false

trailing_step :
    (c : ℕ) (s chars r tail : Bytes)
    → strip_from_end s chars ≡ r
    → s ≡ r ++ tail
    → All (IsListed chars) tail
    → EndsUnlisted chars r
    → (tail' : Bytes) × (c ∷ s ≡ strip_from_end (c ∷ s) chars ++ tail')
      × All (IsListed chars) tail'
      × EndsUnlisted chars (strip_from_end (c ∷ s) chars)
unfolding strip_from_end
trailing_step c s chars [] tail e split listed ends = elim (Bool-cases (is_listed chars c)) [
  | inl yes' ↦ (c ∷ tail, ground arith, (yes', listed), ground arith)
  | inr no' ↦ (tail, ground arith, listed, ground arith)
]
trailing_step c s chars (d ∷ r) tail e split listed ends = (tail, ground arith, listed, rw e ends)

strip_from_end_lem :
    (s chars : Bytes)
    → (tail : Bytes) × (s ≡ strip_from_end s chars ++ tail)
      × All (IsListed chars) tail
      × EndsUnlisted chars (strip_from_end s chars)
unfolding strip_from_end
strip_from_end_lem [] chars = ([], refl, tt, tt)
strip_from_end_lem (c ∷ s) chars =
    let (tail, split, listed, ends) = strip_from_end_lem s chars in
    trailing_step c s chars _ tail refl split listed ends

-- What is stripped at the end is listed, it is all that can go, and its length is returned.
pub string_strip_trailing_lem :
    (s chars : Bytes)
    → (tail : Bytes) × (s ≡ (string_strip_trailing s chars).0 ++ tail)
      × All (IsListed chars) tail
      × EndsUnlisted chars (string_strip_trailing s chars).0
      × ((string_strip_trailing s chars).1 ≡ length tail)
unfolding string_strip_trailing
string_strip_trailing_lem s chars =
    let (tail, split, listed, ends) = strip_from_end_lem s chars in
    let total = ap length split ∙ length-append (strip_from_end s chars) tail in
    (tail, split, listed, ends, omega arith)

-- What is stripped in front is listed, it is all that can go, and its length is returned.
string_strip_leading_lem :
    (s chars : Bytes)
    → (front : Bytes) × (s ≡ front ++ (string_strip_leading s chars).0)
      × All (IsListed chars) front
      × (length front ≡ (string_strip_leading s chars).1)
      × StartsUnlisted chars (string_strip_leading s chars).0
unfolding string_strip_leading
string_strip_leading_lem [] chars = ([], refl, tt, refl, tt)
string_strip_leading_lem (c ∷ s) chars = elim (Bool-cases (is_listed chars c)) [
  | inl yes' ↦
      let (front, split, listed, size, rest) = string_strip_leading_lem s chars in
      (c ∷ front, ground arith, (yes', listed), ground arith, ground arith)
  | inr no' ↦ ([], ground arith, tt, ground arith, ground arith)
]

pub occurrences : ℕ → Bytes → ℕ
occurrences c [] = 0
occurrences c (d ∷ s) = (if d == c then 1 else 0) + occurrences c s

-- Where `from` and `to` differ, every occurrence of `from` becomes `to`, the length stays, and the
-- changes are counted.
pub translate_char_lem :
    (s : Bytes) (from to : ℕ)
    → from ≢ to
    → (occurrences from (translate_char s from to).0 ≡ 0)
      × (occurrences to (translate_char s from to).0 ≡ occurrences to s + occurrences from s)
      × (length (translate_char s from to).0 ≡ length s)
      × ((translate_char s from to).1 ≡ occurrences from s)
unfolding translate_char occurrences
translate_char_lem [] from to h = (refl, refl, refl, refl)
translate_char_lem (c ∷ s) from to h =
    let (gone, there, size, count) = translate_char_lem s from to h in
    (ground arith, ground arith, ground arith, ground arith)
