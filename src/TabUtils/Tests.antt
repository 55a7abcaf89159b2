-- ===== src/TabUtils/Tests.antt =====
-- Runs of the column functions, and their theorems at concrete columns.
use renameutils.Common.{suc, ◌≤◌, ◌<◌, [], ◌∷◌, ◌≡◌, refl, arith, length, take, Bytes}
use renameutils.TabUtils.{
  tab, space, output_tabs, tab_to, tab_len_from, tab_len, tab_index_from, tab_index,
}
use renameutils.TabUtils.Columns.{tab_len-tab_to, tab_index_lem}

mixed : tab_to 5 18 8 ≡ tab ∷ tab ∷ space ∷ space ∷ []
unfolding tab_to output_tabs
mixed = refl

abbrev tabbed : Bytes
tabbed = b'a' ∷ tab ∷ b'b' ∷ []

inside_a_tab : tab_index tabbed 5 8 ≡ 1
unfolding tab_index tab_index_from
inside_a_tab = refl

tab_len-tab_to_example : tab_len_from 8 5 (tab_to 5 18 8) ≡ 18
tab_len-tab_to_example = tab_len-tab_to 5 18 8 (omega arith) (omega arith)

tab_index_lem_example :
    (tab_len (take (tab_index tabbed 5 8) tabbed) 8 ≤ 5)
    × (tab_index tabbed 5 8 < length tabbed
        → 5 < tab_len (take (suc (tab_index tabbed 5 8)) tabbed) 8)
tab_index_lem_example = tab_index_lem tabbed 5 8 (omega arith)
