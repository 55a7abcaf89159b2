-- ===== src/TabUtils.antt =====
-- src/common/tab-utils.c: columns of a text with tab characters. The columns and the tab size are not
-- negative, and small enough for the type `int`.
pub mod Columns
mod Tests
use renameutils.Common.{
  ℕ, zero, suc, ◌+◌, ◌-◌, ◌*◌, ◌/◌, List, [], ◌∷◌, ◌++◌, if◌then◌else◌, ltb, leb, ◌==◌, Bytes,
  length, replicate, get_or,
}

abbrev pub tab : ℕ
tab = 9

abbrev pub space : ℕ
space = 32

-- `(from/tabsize+1)*tabsize`
abbrev pub next_stop : ℕ → ℕ → ℕ
next_stop from tabsize = (from / tabsize + 1) * tabsize

-- The `while` loop: the tab characters, and where they lead.
unfoldable pub output_tabs : ℕ → ℕ → ℕ → ℕ → Bytes × ℕ
output_tabs zero from to tabsize = ([], from)
output_tabs (suc fuel) from to tabsize =
    let (out, end') = output_tabs fuel (next_stop from tabsize) to tabsize in
    if leb (next_stop from tabsize) to then (tab ∷ out, end') else ([], from)

-- Every tab character moves on, so `to` rounds and the one that stops are enough.
unfoldable pub tab_to : ℕ → ℕ → ℕ → Bytes
tab_to from to tabsize =
    if tabsize == 0
    then replicate (to - from) space
    else (let (out, end') = output_tabs (suc to) from to tabsize in
        out ++ replicate (to - end') space)

-- One character further: `len` in `tab_len`, `c` in `tab_index`.
abbrev pub column_after : ℕ → ℕ → ℕ → ℕ
column_after tabsize len c = if c == tab then next_stop len tabsize else suc len

unfoldable pub tab_len_from : ℕ → ℕ → Bytes → ℕ
tab_len_from tabsize len [] = len
tab_len_from tabsize len (c ∷ string) = tab_len_from tabsize (column_after tabsize len c) string

unfoldable pub tab_len : Bytes → ℕ → ℕ
tab_len string tabsize = if tabsize == 0 then length string else tab_len_from tabsize 0 string

-- The `for` loop, and `c > pos ? p-1 : p`.
unfoldable pub tab_index_from : ℕ → ℕ → ℕ → ℕ → Bytes → ℕ
tab_index_from tabsize pos c p [] = if ltb pos c then p - 1 else p
tab_index_from tabsize pos c p (b ∷ string) =
    let rest = tab_index_from tabsize pos (column_after tabsize c b) (suc p) string in
    if ltb c pos then rest else if ltb pos c then p - 1 else p

unfoldable pub tab_index : Bytes → ℕ → ℕ → ℕ
tab_index string pos tabsize = if tabsize == 0 then pos else tab_index_from tabsize pos 0 0 string

-- The null byte ends the string.
abbrev pub tab_char_at : Bytes → ℕ → ℕ → ℕ
tab_char_at string pos tabsize = get_or string (tab_index string pos tabsize) 0
