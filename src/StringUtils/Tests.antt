-- ===== src/StringUtils/Tests.antt =====
-- Runs of the string functions, and their theorems at concrete strings.
use renameutils.Common.{
  ◌-◌, ◌^◌, ◌<◌, ◌≤◌, ◌++◌, ◌≡◌, ◌⊎◌, inr, refl, arith, Bytes, codes, All, length, pos, minus_one,
  ◌==◌,
}
use renameutils.StringUtils.{
  ends_with, strindex, cat_files, xdirname, strrchr, uintlen, word_get_index, string_strip_trailing,
  strip_from_end,
}
use renameutils.StringUtils.Strip.{IsListed, EndsUnlisted, string_strip_trailing_lem}
use renameutils.StringUtils.Digits.{uintlen_lem}
use renameutils.StringUtils.Paths.{xdirname-cat_files}

dirname_runs : xdirname (codes "a/b/c") ≡ codes "a/b"
unfolding xdirname strrchr
dirname_runs = refl

strip_runs : string_strip_trailing (codes "ab \t ") (codes " \t") ≡ (codes "ab", 3)
unfolding string_strip_trailing strip_from_end
strip_runs = refl

strindex_runs : (strindex (codes "abc") b'c' ≡ pos 2) × (strindex (codes "abc") b'd' ≡ minus_one)
unfolding strindex
strindex_runs = (refl, refl)

words_run : word_get_index (λ c. c == 32) (codes "ab cd e") 5 ≡ 1
unfolding word_get_index
words_run = refl

string_strip_trailing_lem_example :
    (tail : Bytes) × (codes "ab \t"
      ≡ (string_strip_trailing (codes "ab \t") (codes " \t")).0 ++ tail)
    × All (IsListed (codes " \t")) tail
    × EndsUnlisted (codes " \t") (string_strip_trailing (codes "ab \t") (codes " \t")).0
    × ((string_strip_trailing (codes "ab \t") (codes " \t")).1 ≡ length tail)
string_strip_trailing_lem_example = string_strip_trailing_lem (codes "ab \t") (codes " \t")

uintlen_lem_example :
    (1234 < 10 ^ uintlen 1234) × ((uintlen 1234 ≡ 1) ⊎ (10 ^ (uintlen 1234 - 1) ≤ 1234))
uintlen_lem_example = uintlen_lem 1234 (omega arith)

xdirname-cat_files_example : xdirname (cat_files (codes "a/b") (codes "c")) ≡ codes "a/b"
xdirname-cat_files_example =
    xdirname-cat_files (codes "a/b") (codes "c") (omega arith) (cc) (inr (unfold ends_with in refl))
