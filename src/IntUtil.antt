-- ===== src/IntUtil.antt =====
-- src/common/intutil.c: the parsers of decimal numbers, of eight widths and signs.
--
-- All of them are one loop. A signed parser that has seen the sign counts downwards, and its tests
-- are those of a counter of the magnitude with the limit one higher; so the loop keeps the magnitude
-- of `value`, cut off at the width of the variable.
pub mod Decimal
mod Tests
use renameutils.Common.{
  ℕ, zero, suc, ◌+◌, ◌-◌, ◌*◌, ◌/◌, ◌%◌, ◌^◌, Bool, true, false, ◌&&◌, ◌||◌, List, [], ◌∷◌, Option,
  none, some, if◌then◌else◌, ltb, leb, ◌==◌, Bytes, ℤ, pos, negsuc, negate_ℕ,
}

-- `int8_t c = *instr - '0'`, as a byte; the test `c < 0 || c > 9` asks for 9 at most.
abbrev pub digit_value : ℕ → ℕ
digit_value b = (b + 208) % 256

abbrev pub is_digit : ℕ → Bool
is_digit b = leb (digit_value b) 9

-- `value > MAX/10 || (value == MAX/10 && c > MAX%10)`
abbrev pub overflows : ℕ → ℕ → ℕ → Bool
overflows limit value c = ltb (limit / 10) value || (value == limit / 10 && ltb (limit % 10) c)

-- `for (; *instr != '\0'; instr++)`
unfoldable pub parse_digits : ℕ → ℕ → ℕ → Bytes → Option ℕ
parse_digits width limit value [] = some value
parse_digits width limit value (b ∷ instr) =
    let rest = parse_digits width limit ((value * 10 + digit_value b) % 2 ^ width) instr in
    if is_digit b then if overflows limit value (digit_value b) then none else rest else none

abbrev pub unsigned_max : ℕ → ℕ
unsigned_max width = 2 ^ width - 1

abbrev pub signed_max : ℕ → ℕ
signed_max width = 2 ^ (width - 1) - 1

unfoldable pub parse_unsigned : ℕ → Bytes → Option ℕ
parse_unsigned width instr = parse_digits width (unsigned_max width) 0 instr

abbrev pub hyphen : ℕ
hyphen = 45

abbrev pub map_pos : Option ℕ → Option ℤ
map_pos none = none
map_pos (some n) = some (pos n)

abbrev pub map_negate : Option ℕ → Option ℤ
map_negate none = none
map_negate (some n) = some (negate_ℕ n)

abbrev pub is_empty : Bytes → Bool
is_empty [] = true
is_empty (b ∷ instr) = false

unfoldable pub parse_signed : ℕ → Bytes → Option ℤ
parse_signed width [] = none
parse_signed width (b ∷ instr) =
    if b == hyphen
    then if is_empty instr
      then none
      else map_negate (parse_digits width (suc (signed_max width)) 0 instr)
    else map_pos (parse_digits width (signed_max width) 0 (b ∷ instr))

abbrev pub parse_int8 : Bytes → Option ℤ
parse_int8 = parse_signed 8

abbrev pub parse_int16 : Bytes → Option ℤ
parse_int16 = parse_signed 16

abbrev pub parse_int32 : Bytes → Option ℤ
parse_int32 = parse_signed 32

abbrev pub parse_int64 : Bytes → Option ℤ
parse_int64 = parse_signed 64

abbrev pub parse_uint8 : Bytes → Option ℕ
parse_uint8 = parse_unsigned 8

abbrev pub parse_uint16 : Bytes → Option ℕ
parse_uint16 = parse_unsigned 16

abbrev pub parse_uint32 : Bytes → Option ℕ
parse_uint32 = parse_unsigned 32

abbrev pub parse_uint64 : Bytes → Option ℕ
parse_uint64 = parse_unsigned 64
