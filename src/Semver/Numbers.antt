-- ===== src/Semver/Numbers.antt =====
-- Numeric identifiers are compared as numbers.
use native.Mathlib.Nat.{pow-succ', pow-le-pow_right}
use salience.Base.{
  ◌≡◌, refl, ℕ, ◌+◌, ◌*◌, ◌-◌, ◌^◌, ◌<◌, ◌≤◌, Text, some, map, [], ◌∷◌, true, arith, length, every,
  compare, text_eq_iff,
}
use salience.Base.Order.{compare_list, then_by}
use salience.Semver.{
  Version, core, parse_semver, compare_semver, compare_versions, compare_prerelease, is_digit,
  is_core_number, compare_text, compare_numeric_identifiers,
}
use salience.Semver.Order.{compare_text-IsTotalOrder}
use salience.Semver.Grammar.{every_of_core_number, print-parse_semver}

-- The number that decimal digits write.
abbrev pub number : Text → ℕ
number [] = 0
number (c ∷ cs) = (c - b'0') * 10 ^ length cs + number cs

mul_step : (d e p : ℕ) → d < e → d * p + p ≤ e * p
mul_step d e p h = grind arith

compare_digits :
    (d e p n m : ℕ)
    → n < p
    → m < p
    → then_by (compare d e) (compare n m) ≡ compare (d * p + n) (e * p + m)
compare_digits d e p n m h k = ground (arith, mul_step d e p, mul_step e d p)

digit_bounds : (c : ℕ) → is_digit c ≡ true → (b'0' ≤ c) × (c < b'0' + 10)
unfolding is_digit
digit_bounds c h = ground arith

number-lt : (t : Text) → every is_digit t ≡ true → number t < 10 ^ length t
number-lt [] h = omega arith
number-lt (c ∷ cs) h =
    let ih = number-lt cs (ground arith) in
    let b = digit_bounds c (ground arith) in
    rw pow-succ' (omega (arith, mul_step (c - b'0') 10 (10 ^ length cs) (omega arith)))

compare_text-eq-compare :
    (s t : Text)
    → every is_digit s ≡ true
    → every is_digit t ≡ true
    → length s ≡ length t
    → compare_text s t ≡ compare (number s) (number t)
unfolding compare_text
compare_text-eq-compare [] [] h k e = refl
compare_text-eq-compare [] (d ∷ t) h k e = absurd (omega arith)
compare_text-eq-compare (c ∷ s) [] h k e = absurd (omega arith)
compare_text-eq-compare (c ∷ s) (d ∷ t) h k e =
    let same : length s ≡ length t = omega arith in
    let ih = compare_text-eq-compare s t (ground arith) (ground arith) same in
    let b = digit_bounds c (ground arith) in
    let b' = digit_bounds d (ground arith) in
    let shift : compare c d ≡ compare (c - b'0') (d - b'0') = ground arith in
    let low : number t < 10 ^ length s = rw same (number-lt t (ground arith)) in
    rw (shift, ih, ← same)
      (compare_digits (c - b'0') (d - b'0') (10 ^ length s) (number s) (number t)
        (number-lt s (ground arith)) low)

-- A number without leading zeros and with more digits is larger.
number_mono :
    (s t : Text)
    → is_core_number s ≡ true
    → is_core_number t ≡ true
    → length s < length t
    → number s < number t
unfolding is_core_number
number_mono [] t h k e = cc
number_mono (c ∷ s) [] h k e = absurd (omega arith)
number_mono (c ∷ s) (d ∷ []) h k e = absurd (omega arith)
number_mono (c ∷ s) (d ∷ d' ∷ t) h k e =
    let low = number-lt (c ∷ s) (every_of_core_number (c ∷ s) h) in
    let digits : every is_digit (d ∷ d' ∷ t) ≡ true = every_of_core_number (d ∷ d' ∷ t) k in
    let b = digit_bounds d (ground arith) in
    let fits : length (c ∷ s) ≤ length (d' ∷ t) = omega arith in
    let more : 10 ^ length (c ∷ s) ≤ 10 ^ length (d' ∷ t) = pow-le-pow_right (omega arith) fits in
    let first : b'0' < d = ground arith in
    omega (arith, mul_step 0 (d - b'0') (10 ^ length (d' ∷ t)) (omega arith))

-- Numbers that are written without leading zeros compare as the numbers that they write.
pub compare_numeric_identifiers-eq-compare :
    (s t : Text)
    → is_core_number s ≡ true
    → is_core_number t ≡ true
    → compare_numeric_identifiers s t ≡ compare (number s) (number t)
unfolding compare_numeric_identifiers
compare_numeric_identifiers-eq-compare s t h k = ground (
  arith,
  text_eq_iff s t,
  compare_text-IsTotalOrder.eq s t,
  number_mono s t h k,
  number_mono t s k h,
  compare_text-eq-compare s t (every_of_core_number s h) (every_of_core_number t k),
)

-- `compareSemver` first compares the three numbers of the two versions as numbers, whatever their
-- lengths, and then the prereleases.
pub compare_semver-numbers :
    (s t : Text) (a b : Version)
    → parse_semver s ≡ some a
    → parse_semver t ≡ some b
    → compare_semver s t
      ≡ some (
          then_by
            (compare_list compare (map number (core a)) (map number (core b)))
            (compare_prerelease a.prerelease b.prerelease))
unfolding compare_semver compare_versions compare_list
compare_semver-numbers s t a b p q =
    let (_, v, _) = print-parse_semver s a p in
    let (_, w, _) = print-parse_semver t b q in
    rw (
      p,
      q,
      compare_numeric_identifiers-eq-compare a.major b.major v.major w.major,
      compare_numeric_identifiers-eq-compare a.minor b.minor v.minor w.minor,
      compare_numeric_identifiers-eq-compare a.patch b.patch v.patch w.patch,
    )
