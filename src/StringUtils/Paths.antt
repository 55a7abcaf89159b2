-- ===== src/StringUtils/Paths.antt =====
-- Joining a directory and a name, and taking the directory back.
use renameutils.Common.{
  false, [], ◌∷◌, ◌++◌, some, none, ◌≡◌, ◌≢◌, ◌⊎◌, inl, inr, refl, arith, Bytes, codes, length, All,
  Bool-cases, str_eq, str_eq_iff,
}
use renameutils.StringUtils.{slash, cat_files, ends_with, strrchr, xdirname}
use renameutils.StringUtils.Strip.{take-append}

abbrev pub LacksSlash : Bytes → Type 0
LacksSlash = All (λ c. c ≢ slash)

pub strrchr-none : (f : Bytes) → LacksSlash f → strrchr f slash ≡ none
unfolding strrchr
strrchr-none [] h = refl
strrchr-none (c ∷ f) (hc, hf) = rw (strrchr-none f hf) (ground arith)

pub strrchr-append : (d f : Bytes) → LacksSlash f → strrchr (d ++ slash ∷ f) slash ≡ some (length d)
unfolding strrchr
strrchr-append [] f h = rw (strrchr-none f h)
strrchr-append (c ∷ d) f h = rw (strrchr-append d f h)

dirname-slash : (d f : Bytes) → LacksSlash f → d ≢ [] → xdirname (d ++ slash ∷ f) ≡ d
unfolding xdirname
dirname-slash [] f h n = absurd (n refl)
dirname-slash (c ∷ d) f h n =
    ground (arith, strrchr-append (c ∷ d) f h, take-append (c ∷ d) (slash ∷ f))

dirname_plain : (f : Bytes) → LacksSlash f → xdirname f ≡ codes "."
unfolding xdirname
dirname_plain f h = ground (arith, strrchr-none f h)

dirname_root : (f : Bytes) → LacksSlash f → xdirname (slash ∷ f) ≡ codes "/"
unfolding xdirname
dirname_root f h = ground (arith, strrchr-append [] f h)

cat_files_root : (f : Bytes) → cat_files (codes "/") f ≡ slash ∷ f
unfolding cat_files str_eq ends_with
cat_files_root f = refl

cat_files_dot : (f : Bytes) → cat_files (codes ".") f ≡ f
unfolding cat_files str_eq
cat_files_dot f = refl

cat_files_plain :
    (d f : Bytes)
    → str_eq d (codes ".") ≡ false
    → ends_with d (codes "/") ≡ false
    → cat_files d f ≡ d ++ slash ∷ f
unfolding cat_files
cat_files_plain d f h k = ground arith

-- The directory of a joined path is the directory, where the name has no slash and the directory is
-- not empty and has no slash at its end, unless it is the root.
pub xdirname-cat_files :
    (d f : Bytes)
    → LacksSlash f
    → d ≢ []
    → (d ≡ codes "/") ⊎ (ends_with d (codes "/") ≡ false)
    → xdirname (cat_files d f) ≡ d
xdirname-cat_files d f h n k = elim (Bool-cases (str_eq d (codes "."))) [
  | inl dot ↦
      let e : d ≡ codes "." = (str_eq_iff d (codes ".")).0 dot in
      rw (e, cat_files_dot f) (dirname_plain f h)
  | inr other ↦ elim k [
    | inl root ↦ rw (root, cat_files_root f) (dirname_root f h)
    | inr plain ↦ rw (cat_files_plain d f other plain) (dirname-slash d f h n)
  ]
]
