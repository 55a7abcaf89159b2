-- ===== src/Deurlname/Decoding.antt =====
-- What deurlname.c makes of a name.
use renameutils.Common.{
  ℕ, zero, suc, ◌+◌, ◌-◌, ◌/◌, ◌%◌, ◌<◌, true, false, [], ◌∷◌, ◌++◌, ◌≡◌, ◌≢◌, inl, inr, refl, ap,
  arith, leb, ◌==◌, ==_iff, if◌then◌else◌, Bytes, take, drop, length, All, IsByte, IsCString,
  Bool-cases, append_assoc,
}
use renameutils.StringUtils.{slash}
use renameutils.StringUtils.Paths.{LacksSlash, strrchr-none, strrchr-append}
use renameutils.Deurlname.{percent, isxdigit, hexvalue, escaped, is_escape, decode, new_name}

-- An upper case hexadecimal digit.
abbrev hex_digit : ℕ → ℕ
hex_digit n = if leb n 9 then b'0' + n else b'A' + (n - 10)

-- URL encoding of every byte.
unfoldable pub encode : Bytes → Bytes
encode [] = []
encode (c ∷ s) = percent ∷ hex_digit (c / 16) ∷ hex_digit (c % 16) ∷ encode s

hexvalue-hex_digit :
    (n : ℕ) → n < 16 → (isxdigit (hex_digit n) ≡ true) × (hexvalue (hex_digit n) ≡ n)
unfolding hexvalue
hexvalue-hex_digit n h = (ground arith, ground arith)

hexvalue-lt : (c : ℕ) → isxdigit c ≡ true → hexvalue c < 16
unfolding hexvalue
hexvalue-lt c h = ground arith

escape_value :
    (c a b : ℕ)
    → is_escape c a b ≡ true
    → (escaped a b ≢ 0) × (escaped a b ≢ slash) × (escaped a b < 256)
escape_value c a b h = (
  ground arith,
  ground arith,
  let first = hexvalue-lt a (ground arith) in
      let second = hexvalue-lt b (ground arith) in omega arith,
)

is_escape-encoded :
    (a b v : ℕ)
    → isxdigit a ≡ true
    → isxdigit b ≡ true
    → escaped a b ≡ v
    → v ≢ 0
    → v ≢ slash
    → is_escape percent a b ≡ true
is_escape-encoded a b v ha hb e zero' slash' =
    let nonzero : (escaped a b == 0) ≡ false = rw e (ground (arith, ==_iff v 0)) in
    let other : (escaped a b == slash) ≡ false = rw e (ground (arith, ==_iff v slash)) in
    rw (ha, hb, nonzero, other) refl

-- Decoding undoes the encoding of every byte of a name without slashes.
pub decode-encode : (s : Bytes) → IsCString s → LacksSlash s → decode (encode s) ≡ s
unfolding decode encode
decode-encode [] h l = refl
decode-encode (c ∷ s) (hc, hs) (lc, ls) =
    let high = hexvalue-hex_digit (c / 16) (omega arith) in
    let low = hexvalue-hex_digit (c % 16) (omega arith) in
    let value : escaped (hex_digit (c / 16)) (hex_digit (c % 16)) ≡ c =
      rw (high.1, low.1) (omega arith) in
    let on = is_escape-encoded _ _ c high.0 low.0 value (ground arith) lc in
    rw (on, value, decode-encode s hs ls) refl

-- What holds of every byte that an escape may stand for is kept by decoding.
decode-All :
    (P : ℕ → Type 0)
    → ((v : ℕ) → v ≢ 0 → v ≢ slash → v < 256 → P v)
    → (s : Bytes) → All P s
    → All P (decode s)
unfolding decode
decode-All P any [] h = h
decode-All P any (c ∷ []) h = h
decode-All P any (c ∷ a ∷ []) h = h
decode-All P any (c ∷ a ∷ b ∷ s) (hc, (ha, (hb, hs))) =
    let after = decode-All P any s hs in
    let next = decode-All P any (a ∷ b ∷ s) (ha, (hb, hs)) in
    elim (Bool-cases (is_escape c a b)) [
      | inl yes' ↦ let v = escape_value c a b yes' in rw yes' (any (escaped a b) v.0 v.1 v.2, after)
      | inr no' ↦ rw no' (hc, next)
    ]

-- Decoding a C string gives a C string.
pub decode-IsCString : (s : Bytes) → IsCString s → IsCString (decode s)
decode-IsCString = decode-All IsByte (λ v nz ns lt. (ground arith, lt))

split_path :
    (d f : Bytes) (n : ℕ)
    → n ≡ suc (length d)
    → (take n (d ++ slash ∷ f) ≡ d ++ slash ∷ []) × (drop n (d ++ slash ∷ f) ≡ f)
split_path d f zero e = absurd (omega arith)
split_path [] f (suc n) e = let z : n ≡ 0 = omega arith in rw z (refl, refl)
split_path (c ∷ d) f (suc n) e =
    let r = split_path d f n (omega arith) in (ap (λ t. c ∷ t) r.0, r.1)

-- A file stays in its directory: the path up to the last slash is kept, and what is behind it is
-- decoded to a name without a slash. A path without a slash is decoded as a whole, to one without.
pub new_name_lem :
    (d f : Bytes)
    → LacksSlash f
    → (new_name (d ++ slash ∷ f) ≡ d ++ slash ∷ decode f)
      × (new_name f ≡ decode f)
      × LacksSlash (decode f)
unfolding new_name
new_name_lem d f l = (
  rw
      (
        new_name,
        strrchr-append d f l,
        (split_path d f (length d + 1) (omega arith)).0,
        (split_path d f (length d + 1) (omega arith)).1,
      )
      (append_assoc d (slash ∷ []) (decode f)),
  rw (new_name, strrchr-none f l) refl,
  decode-All (λ c. c ≢ slash) (λ v nz ns lt. ns) f l,
)
