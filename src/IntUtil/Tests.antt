-- ===== src/IntUtil/Tests.antt =====
-- Runs of the number parsers, and their theorems at concrete texts.
use renameutils.Common.{true, ◌-◌, ◌^◌, none, some, ◌≡◌, refl, arith, codes, negsuc}
use renameutils.IntUtil.{
  parse_digits, parse_unsigned, parse_signed, parse_int8, parse_uint8, parse_uint16, map_negate,
}
use renameutils.IntUtil.Decimal.{decimal, number, parse_unsigned_lem, parse_signed_lem}

limits :
    (parse_uint8 (codes "255") ≡ some 255)
    × (parse_uint8 (codes "256") ≡ none)
    × (parse_int8 (codes "-128") ≡ some (negsuc 127))
    × (parse_int8 (codes "128") ≡ none)
    × (parse_int8 (codes "-129") ≡ none)
    × (parse_uint16 (codes "4x") ≡ none)
unfolding parse_signed parse_unsigned parse_digits
limits = (refl, refl, refl, refl, refl, refl)

-- The unsigned parsers take the empty text for 0.
empty_text : (parse_uint8 (codes "") ≡ some 0) × (parse_int8 (codes "") ≡ none)
unfolding parse_signed parse_unsigned parse_digits
empty_text = (refl, refl)

parse_unsigned_lem_example :
    parse_unsigned 16 (codes "72") ≡ number true (decimal (codes "72")) (2 ^ 16 - 1)
parse_unsigned_lem_example = parse_unsigned_lem 16 (codes "72") (omega arith)

parse_signed_lem_example :
    parse_signed 8 (codes "-72") ≡ map_negate (number true (decimal (codes "72")) (2 ^ (8 - 1)))
parse_signed_lem_example = parse_signed_lem 8 45 (codes "72") (omega arith) (omega arith)
