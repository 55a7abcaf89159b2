-- ===== src/StringUtils.antt =====
-- src/common/string-utils.c: functions on C strings. A function that changes its argument returns
-- the new string, with its result where it has one. Strings are shorter than 2 ^ 31 bytes, so an
-- `int` index does not wrap. `tolower` depends on the locale and is a parameter.
pub mod Affixes
pub mod Strip
mod Digits
pub mod Paths
mod Tests
use mathlib.Core.List.{map, foldr}
use renameutils.Common.{
  ℕ, zero, suc, ◌+◌, ◌-◌, ◌/◌, Bool, true, false, not, ◌&&◌, List, [], ◌∷◌, ◌++◌, Option, none,
  some, ltb, leb, ◌==◌, if◌then◌else◌, Bytes, codes, length, get_or, take, drop, strchr, str_eq, ℤ,
  pos, minus_one,
}

abbrev pub newline : ℕ
newline = 10

abbrev pub slash : ℕ
slash = b'/'

-- `strchr` finds the terminator when it is asked for a null byte.
unfoldable pub strindex : Bytes → ℕ → ℤ
unfolding strchr
strindex str ch =
    if ch == 0 then pos (length str) else elim (strchr str ch) [ none ↦ minus_one | some i ↦ pos i ]

unfoldable pub chomp : Bytes → Bytes
chomp str =
    let len = length str in
    if ltb 0 len && get_or str (len - 1) 0 == newline then take (len - 1) str else str

-- `check` stands for `isspace` and its like.
unfoldable pub strip_leading : (ℕ → Bool) → Bytes → Bytes
strip_leading check [] = []
strip_leading check (c ∷ line) = if check c then strip_leading check line else c ∷ line

unfoldable pub char_index : (ℕ → Bool) → Bytes → Option ℕ
char_index check [] = none
char_index check (c ∷ line) =
    if check c then some 0 else elim (char_index check line) [ none ↦ none | some i ↦ some (suc i) ]

-- The comparison loop of `ends_with`, at the tail of `str` that is as long as `end`. A read at the
-- terminator gives the null byte.
unfoldable pub same_bytes : (ℕ → ℕ) → Bytes → Bytes → Bool
same_bytes lower str [] = true
same_bytes lower str (d ∷ end) =
    if lower d == lower (get_or str 0 0) then same_bytes lower (drop 1 str) end else false

-- `ends_with_nocase`; `ends_with` compares the bytes themselves.
unfoldable pub ends_with_nocase : (ℕ → ℕ) → Bytes → Bytes → Bool
unfolding same_bytes
ends_with_nocase lower str end =
    if ltb (length str) (length end)
    then false
    else same_bytes lower (drop (length str - length end) str) end

unfoldable pub ends_with : Bytes → Bytes → Bool
unfolding ends_with_nocase
ends_with = ends_with_nocase (λ c. c)

-- The loop ends at the end of `str` or at the first difference, and then asks whether `start` has
-- ended there.
unfoldable pub starts_with_nocase : (ℕ → ℕ) → Bytes → Bytes → Bool
starts_with_nocase lower [] start = get_or start 0 0 == 0
starts_with_nocase lower (c ∷ str) start =
    if lower c == lower (get_or start 0 0)
    then starts_with_nocase lower str (drop 1 start)
    else get_or start 0 0 == 0

unfoldable pub starts_with : Bytes → Bytes → Bool
unfolding starts_with_nocase
starts_with = starts_with_nocase (λ c. c)

-- The string after the translation, and the number of changes.
unfoldable pub translate_char : Bytes → ℕ → ℕ → Bytes × ℕ
translate_char [] from to = ([], 0)
translate_char (c ∷ str) from to =
    let (rest, changes) = translate_char str from to in
    if c == from then (to ∷ rest, changes + 1) else (c ∷ rest, changes)

-- A directory and a name in it, joined.
unfoldable pub cat_files : Bytes → Bytes → Bytes
cat_files file file2 =
    if str_eq file (codes ".")
    then file2
    else file ++ ((if ends_with file (codes "/") then [] else codes "/") ++ file2)

-- `string_index_of_c(stripchars, c) != -1`
unfoldable pub is_listed : Bytes → ℕ → Bool
unfolding strindex
is_listed chars c = elim (strindex chars c) [ pos i ↦ true | _ ↦ false ]

-- The loop, which runs from the end, and `str[a+1] = '\0'`: a byte is dropped when all behind it is
-- dropped and it is listed.
unfoldable pub strip_from_end : Bytes → Bytes → Bytes
unfolding is_listed
strip_from_end [] stripchars = []
strip_from_end (c ∷ str) stripchars = elim (strip_from_end str stripchars) [
  | [] ↦ if is_listed stripchars c then [] else c ∷ []
  | d ∷ rest ↦ c ∷ d ∷ rest
]

-- The string that is left, and `b - a`, where `b + 1` is the old length and `a + 1` the new one.
unfoldable pub string_strip_trailing : Bytes → Bytes → Bytes × ℕ
unfolding strip_from_end
string_strip_trailing str stripchars =
    let left = strip_from_end str stripchars in (left, length str - length left)

-- The string without its listed front, and how many bytes went.
unfoldable pub string_strip_leading : Bytes → Bytes → Bytes × ℕ
unfolding is_listed
string_strip_leading [] stripchars = ([], 0)
string_strip_leading (c ∷ str) stripchars =
    if is_listed stripchars c
    then (let (rest, n) = string_strip_leading str stripchars in (rest, n + 1))
    else (c ∷ str, 0)

unfoldable pub string_index_of_any : Bytes → Bytes → Option ℕ
unfolding is_listed char_index
string_index_of_any str findchars = char_index (is_listed findchars) str

-- The words that are complete before position `pos`; `in_word` and `words` are the loop's variables.
unfoldable pub words_before : (ℕ → Bool) → Bytes → ℕ → Bool → ℕ → ℕ
words_before space [] n in_word words = words
words_before space (c ∷ str) zero in_word words = words
words_before space (c ∷ str) (suc n) in_word words =
    let inside = if in_word then true else not (space c) in
    words_before space str n (if inside && space c then false else inside)
      (if inside && space c then words + 1 else words)

unfoldable pub word_get_index : (ℕ → Bool) → Bytes → ℕ → ℕ
unfolding words_before
word_get_index space str n = words_before space str n false 0

-- `len` grows while `value` has another digit; a 64-bit value has at most twenty.
unfoldable pub count_digits : ℕ → ℕ → ℕ → ℕ
count_digits zero value len = len
count_digits (suc fuel) value len =
    let more = count_digits fuel (value / 10) (len + 1) in if leb 10 value then more else len

unfoldable pub uintlen : ℕ → ℕ
uintlen value = count_digits 20 value 1

-- `strrchr(path, '/')`, as an index.
unfoldable pub strrchr : Bytes → ℕ → Option ℕ
strrchr [] c = none
strrchr (d ∷ s) c = elim (strrchr s c) [
  | some i ↦ some (suc i)
  | none ↦ if d == c then some 0 else none
]

unfoldable pub xdirname : Bytes → Bytes
xdirname path = elim (strrchr path slash) [
  | none ↦ codes "."
  | some i ↦ if i == 0 then codes "/" else take i path
]
