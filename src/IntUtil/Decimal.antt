-- ===== src/IntUtil/Decimal.antt =====
-- The parsers of src/common/intutil.c accept the decimal numbers in their range, and no other text.
use native.Mathlib.Nat.{mod-eq_of_lt}
use renameutils.Common.{
  ℕ, zero, suc, ◌+◌, ◌-◌, ◌*◌, ◌%◌, ◌^◌, ◌≤◌, ◌<◌, Bool, true, false, ◌&&◌, [], ◌∷◌, Option, none,
  some, ◌≡◌, refl, ap, ◌∙◌, arith, inl, inr, if◌then◌else◌, ltb, leb, ◌==◌, Bytes, IsByte, All,
  length, Bool-cases,
}
use renameutils.IntUtil.{
  digit_value, is_digit, overflows, parse_digits, parse_unsigned, parse_signed, unsigned_max,
  signed_max, hyphen, map_pos, map_negate, is_empty,
}

-- The number that a text of digits denotes, by the places of its digits.
unfoldable pub decimal : Bytes → ℕ
decimal [] = 0
decimal (b ∷ s) = (b - 48) * 10 ^ length s + decimal s

abbrev pub all_digits : Bytes → Bool
all_digits [] = true
all_digits (b ∷ s) = (leb 48 b && leb b 57) && all_digits s

digit-value : (b : ℕ) → b < 256 → is_digit b ≡ (leb 48 b && leb b 57)
digit-value b h = ground arith

digit_value_lem : (b : ℕ) → (leb 48 b && leb b 57) ≡ true → digit_value b ≡ b - 48
digit_value_lem b h = ground arith

overflows_lem : (limit value c : ℕ) → c ≤ 9 → overflows limit value c ≡ ltb limit (value * 10 + c)
overflows_lem limit value c h = ground arith

power_pos : (n : ℕ) → 0 < 10 ^ n
power_pos zero = ground arith
power_pos (suc n) = ground (arith, power_pos n)

two_power : (n : ℕ) → 0 < 2 ^ n
two_power zero = ground arith
two_power (suc n) = ground (arith, two_power n)

-- One more digit, and the rest of the number.
spread : (value d p rest : ℕ) → (value * 10 + d) * p + rest ≡ value * (10 * p) + (d * p + rest)
spread value d p rest = omega arith

ten_power : (n : ℕ) → 10 ^ suc n ≡ 10 * 10 ^ n
ten_power n = ground arith

places :
    (value d n rest : ℕ)
    → (value * 10 + d) * 10 ^ n + rest ≡ value * 10 ^ suc n + (d * 10 ^ n + rest)
places value d n rest = rw (ten_power n) (spread value d (10 ^ n) rest)

grows : (limit a p rest : ℕ) → 0 < p → limit < a → limit < a * p + rest
grows limit a zero rest h k = absurd (ground arith)
grows limit a (suc p) rest h k = ground arith

abbrev pub number : Bool → ℕ → ℕ → Option ℕ
number digits n limit = if digits && leb n limit then some n else none

step_over :
    (width limit value b : ℕ) (s : Bytes)
    → is_digit b ≡ true
    → overflows limit value (digit_value b) ≡ true
    → parse_digits width limit value (b ∷ s) ≡ none
unfolding parse_digits
step_over width limit value b s d o = rw (parse_digits, d, o) refl

step_fits :
    (width limit value b : ℕ) (s : Bytes)
    → is_digit b ≡ true
    → overflows limit value (digit_value b) ≡ false
    → parse_digits width limit value (b ∷ s)
      ≡ parse_digits width limit ((value * 10 + digit_value b) % 2 ^ width) s
unfolding parse_digits
step_fits width limit value b s d o = rw (parse_digits, d, o) refl

step_other :
    (width limit value b : ℕ) (s : Bytes)
    → is_digit b ≡ false
    → parse_digits width limit value (b ∷ s) ≡ none
unfolding parse_digits
step_other width limit value b s d = rw (parse_digits, d) refl

number_over : (digits : Bool) (n limit : ℕ) → limit < n → none ≡ number digits n limit
number_over true n limit h = ground arith
number_over false n limit h = refl

-- The loop, from a value that it has read: what it returns is the number that the digits denote.
pub parse_digits_lem :
    (width limit value : ℕ) (s : Bytes)
    → limit < 2 ^ width
    → value ≤ limit
    → All IsByte s
    → parse_digits width limit value s
      ≡ number (all_digits s) (value * 10 ^ length s + decimal s) limit
unfolding parse_digits decimal
parse_digits_lem width limit value [] w h _ = ground arith
parse_digits_lem width limit value (b ∷ s) w h (byte, bytes) =
    let place = places value (b - 48) (length s) (decimal s) in
    elim (Bool-cases (leb 48 b && leb b 57)) [
      | inr other ↦ rw (step_other width limit value b s (digit-value b byte.1 ∙ other), other) refl
      | inl digit ↦
          let d = digit_value_lem b digit in
          let on = digit-value b byte.1 ∙ digit in
          let o =
            ap (overflows limit value) d ∙ overflows_lem limit value (b - 48) (ground arith) in
          elim (Bool-cases (ltb limit (value * 10 + (b - 48)))) [
            | inl over ↦
                let big =
                  grows limit (value * 10 + (b - 48)) (10 ^ length s) (decimal s)
                    (power_pos (length s)) (ground arith) in
                rw (digit) (
                  step_over width limit value b s on (o ∙ over)
                  ∙ number_over (all_digits s) _ limit (rw place at big))
            | inr fits ↦
                let m : (value * 10 + (b - 48)) % 2 ^ width ≡ value * 10 + (b - 48) =
                  mod-eq_of_lt (ground arith) in
                let ih =
                  parse_digits_lem width limit (value * 10 + (b - 48)) s w (ground arith) bytes in
                rw (digit, step_fits width limit value b s on (o ∙ fits), d, m, ih, place) refl
          ]
    ]

from_zero :
    (width limit : ℕ) (s : Bytes)
    → limit < 2 ^ width
    → All IsByte s
    → parse_digits width limit 0 s ≡ number (all_digits s) (decimal s) limit
from_zero width limit s h bytes =
    parse_digits_lem width limit 0 s h (ground arith) bytes
    ∙ rw (zero_times (10 ^ length s) (decimal s)) refl
  where
    zero_times : (p n : ℕ) → 0 * p + n ≡ n
    zero_times p n = omega arith

-- `parse_uint8`, 16, 32 and 64: a C string is accepted exactly if it holds digits only, and the
-- number that they denote is below 2^width; then that number is the result.
pub parse_unsigned_lem :
    (width : ℕ) (s : Bytes)
    → All IsByte s
    → parse_unsigned width s ≡ number (all_digits s) (decimal s) (2 ^ width - 1)
unfolding parse_unsigned
parse_unsigned_lem width s bytes =
    from_zero width (unsigned_max width) s (let p = two_power width in ground arith) bytes

half : (width : ℕ) → 0 < width → 2 ^ width ≡ 2 * 2 ^ (width - 1)
half zero h = absurd (ground arith)
half (suc n) h = rw (ap (λ t. 2 ^ t) same) (double n)
  where
    same : suc n - 1 ≡ n
    same = ground arith

    double : (n : ℕ) → 2 ^ suc n ≡ 2 * 2 ^ n
    double n = ground arith

-- `parse_int8`, 16, 32 and 64: a C string that is not empty is accepted exactly if it is a minus sign
-- and digits, at least one, whose number is 2^(width-1) at most, or digits alone whose number is below
-- that; the result is the number, negated after a sign.
pub parse_signed_lem :
    (width : ℕ) (b : ℕ) (s : Bytes)
    → 0 < width
    → All IsByte (b ∷ s)
    → parse_signed width (b ∷ s) ≡ (
        if b == hyphen
        then if is_empty s
          then none
          else map_negate (number (all_digits s) (decimal s) (2 ^ (width - 1)))
        else map_pos (number (all_digits (b ∷ s)) (decimal (b ∷ s)) (2 ^ (width - 1) - 1)))
unfolding parse_signed
parse_signed_lem width b s h bytes =
    let p = two_power (width - 1) in
    let twice = half width h in
    let up : suc (signed_max width) ≡ 2 ^ (width - 1) = ground arith in
    let negative =
      from_zero width (suc (signed_max width)) s (ground arith) bytes.1
      ∙ ap (number (all_digits s) (decimal s)) up in
    let positive = from_zero width (signed_max width) (b ∷ s) (ground arith) bytes in
    rw (negative, positive) refl
