-- ===== src/Deurlname.antt =====
-- src/deurlname.c: the URL escapes in the names of files are decoded, and the files renamed.
--
-- The options and the messages are left aside. `rename` is the parameter of the loop over the files:
-- whether it succeeds, and the world afterwards.
pub mod Decoding
mod Tests
use renameutils.Common.{
  ℕ, zero, suc, ◌+◌, ◌-◌, ◌*◌, Bool, true, false, not, ◌&&◌, ◌||◌, List, [], ◌∷◌, ◌++◌, Option,
  none, some, leb, ◌==◌, if◌then◌else◌, Bytes, take, drop, str_eq,
}
use renameutils.StringUtils.{slash, strrchr}

abbrev pub percent : ℕ
percent = b'%'

-- `isxdigit` of the C library.
abbrev pub isxdigit : ℕ → Bool
isxdigit c = (leb b'0' c && leb c b'9') || (leb b'A' c && leb c b'F') || (leb b'a' c && leb c b'f')

unfoldable pub hexvalue : ℕ → ℕ
hexvalue c =
    if leb b'0' c && leb c b'9'
    then c - b'0'
    else if leb b'A' c && leb c b'F'
    then c - b'A' + 10
    else c - b'a' + 10

-- `(hexvalue(name[d+1]) << 4) | hexvalue(name[d+2])`: the two share no bit.
abbrev pub escaped : ℕ → ℕ → ℕ
escaped a b = hexvalue a * 16 + hexvalue b

-- An escape that is decoded: neither a null byte nor a slash.
abbrev pub is_escape : ℕ → ℕ → ℕ → Bool
is_escape c a b =
    (c == percent && isxdigit a && isxdigit b)
    && (not (escaped a b == 0) && not (escaped a b == slash))

-- The loop over the name, behind its last slash.
unfoldable pub decode : Bytes → Bytes
decode [] = []
decode (c ∷ []) = c ∷ []
decode (c ∷ a ∷ []) = c ∷ decode (a ∷ [])
decode (c ∷ a ∷ b ∷ name) =
    let after = decode name in
    let next = decode (a ∷ b ∷ name) in if is_escape c a b then escaped a b ∷ after else c ∷ next

unfoldable pub new_name : Bytes → Bytes
new_name name = elim (strrchr name slash) [
  | none ↦ decode name
  | some basename ↦ take (basename + 1) name ++ decode (drop (basename + 1) name)
]

-- The loop over the files: whether all went well, and the world.
unfoldable pub rename_each :
    {World : Type 0} → (World → Bytes → Bytes → Bool × World) → List Bytes → World → Bool × World
rename_each rename [] world = (true, world)
rename_each rename (name ∷ names) world =
    let (renamed, world') = rename world name (new_name name) in
    let (rest, end') = rename_each rename names world' in
    let (rest', end'') = rename_each rename names world in
    if str_eq name (new_name name) then (rest', end'') else (renamed && rest, end')
