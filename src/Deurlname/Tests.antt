-- ===== src/Deurlname/Tests.antt =====
-- Runs of the decoding, and its theorems at concrete names.
use renameutils.Common.{◌∷◌, ◌++◌, ◌≡◌, refl, arith, codes}
use renameutils.StringUtils.{slash}
use renameutils.StringUtils.Paths.{LacksSlash}
use renameutils.Deurlname.{hexvalue, decode, new_name}
use renameutils.Deurlname.Decoding.{encode, decode-encode, new_name_lem}

escapes : (decode (codes "a%20b") ≡ codes "a b") × (decode (codes "%2f%00%4") ≡ codes "%2f%00%4")
unfolding decode hexvalue
escapes = (refl, refl)

decode-encode_example : decode (encode (codes "a b%")) ≡ codes "a b%"
decode-encode_example = decode-encode (codes "a b%") (omega arith) (ground arith)

new_name_lem_example :
    (new_name (codes "x%20y" ++ slash ∷ codes "%41")
      ≡ codes "x%20y" ++ slash ∷ decode (codes "%41"))
    × (new_name (codes "%41") ≡ decode (codes "%41"))
    × LacksSlash (decode (codes "%41"))
new_name_lem_example = new_name_lem (codes "x%20y") (codes "%41") (ground arith)
