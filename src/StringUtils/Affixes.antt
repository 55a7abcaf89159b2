-- ===== src/StringUtils/Affixes.antt =====
-- The two affix tests decide whether one string begins, or ends, with the other.
use renameutils.Common.{
  ℕ, zero, suc, ◌-◌, true, [], ◌∷◌, ◌++◌, ◌≡◌, ◌↔◌, refl, ap, arith, ltb, ◌==◌, Bytes, length, take,
  drop, length-append, drop-append, IsCString, Bool-cases, inl, inr,
}
use renameutils.StringUtils.{same_bytes, starts_with, ends_with}

-- `str` begins with `start`.
abbrev Begins : Bytes → Bytes → Type 0
Begins str start = (rest : Bytes) × (str ≡ start ++ rest)

-- `str` ends with `end`.
abbrev Ends : Bytes → Bytes → Type 0
Ends str end = (front : Bytes) × (str ≡ front ++ end)

starts_with-Begins :
    (str start : Bytes) → IsCString start → starts_with str start ≡ true → Begins str start
unfolding starts_with
starts_with-Begins str [] h e = (str, refl)
starts_with-Begins [] (d ∷ start) h e = absurd (ground arith)
starts_with-Begins (c ∷ str) (d ∷ start) (hd, hs) e = elim (Bool-cases (c == d)) [
  | inl same ↦
      let (rest, split) = starts_with-Begins str start hs (ground arith) in
      let front : c ≡ d = ground arith in (rest, ground arith)
  | inr differ ↦ absurd (ground arith)
]

pub starts_with-append :
    (start rest : Bytes)
    → IsCString start
    → IsCString rest
    → starts_with (start ++ rest) start ≡ true
unfolding starts_with
starts_with-append [] [] h k = refl
starts_with-append [] (c ∷ rest) h k = ground arith
starts_with-append (d ∷ start) rest (hd, hs) k = ground (arith, starts_with-append start rest hs k)

IsCString-tail : (s t : Bytes) → IsCString (s ++ t) → IsCString t
IsCString-tail [] t h = h
IsCString-tail (c ∷ s) t h = IsCString-tail s t h.1

-- For C strings, `starts_with` holds exactly when `str` is `start` with something behind it.
starts_with_iff :
    (str start : Bytes)
    → IsCString str
    → IsCString start
    → (starts_with str start ≡ true) ↔ Begins str start
starts_with_iff str start hs ht = (
  starts_with-Begins str start ht,
  λ b. rw b.1 (starts_with-append start b.0 ht (IsCString-tail start b.0 (rw b.1 at hs))),
)

take-drop : (n : ℕ) (xs : Bytes) → take n xs ++ drop n xs ≡ xs
take-drop zero xs = refl
take-drop (suc n) [] = refl
take-drop (suc n) (x ∷ xs) = ap (λ r. x ∷ r) (take-drop n xs)

same_bytes_iff :
    (str end : Bytes)
    → IsCString end
    → length str ≡ length end
    → (same_bytes (λ c. c) str end ≡ true) ↔ (str ≡ end)
unfolding same_bytes
same_bytes_iff [] [] h e = ground arith
same_bytes_iff [] (d ∷ end) h e = absurd (omega arith)
same_bytes_iff (c ∷ str) [] h e = absurd (omega arith)
same_bytes_iff (c ∷ str) (d ∷ end) h e = ground (arith, same_bytes_iff str end h.1)

length-drop : (n : ℕ) (xs : Bytes) → length (drop n xs) ≡ length xs - n
length-drop zero xs = omega arith
length-drop (suc n) [] = omega arith
length-drop (suc n) (x ∷ xs) = omega (arith, length-drop n xs)

ends_with-append : (front end : Bytes) → IsCString end → ends_with (front ++ end) end ≡ true
unfolding ends_with
ends_with-append front end h =
    let total = length-append front end in
    let n : length (front ++ end) - length end ≡ length front = omega (arith, total) in
    let tail : same_bytes (λ c. c) (drop (length (front ++ end) - length end) (front ++ end)) end
        ≡ true =
      rw (n, drop-append front end) ((same_bytes_iff end end h refl).1 refl) in
    ground (arith, tail, total)

-- `ends_with` holds exactly when `str` is `end` with something before it, where `end` is a C string.
ends_with_iff : (str end : Bytes) → IsCString end → (ends_with str end ≡ true) ↔ Ends str end
unfolding ends_with
ends_with_iff str end h = elim (Bool-cases (ltb (length str) (length end))) [
  | inl short ↦ (
    λ e. absurd (ground arith),
    λ b. absurd (grind (arith, ap length b.1, length-append b.0 end)),
  )
  | inr long ↦
      let n = length str - length end in
      let whole = take-drop n str in
      let size : length (drop n str) ≡ length end = ground (arith, length-drop n str) in
      let tail = same_bytes_iff (drop n str) end h size in
      (λ e. (take n str, ground (arith, tail.0, whole)), λ b. rw b.1 (ends_with-append b.0 end h))
]
