-- ===== src/Json/Print/Digits.antt =====
-- The digits that `decimal` writes.
use native.Mathlib.Nat.{pow-succ'}
use salience.Base.{
  ℕ, zero, suc, ◌+◌, ◌-◌, ◌*◌, ◌/◌, ◌%◌, ◌^◌, ◌≤◌, ◌<◌, ◌≡◌, refl, ap, ◌∙◌, Text, [], ◌∷◌, true,
  arith, ltb, length, every, Bool-cases, inl, inr,
}
use salience.Semver.{is_digit}
use salience.Semver.Numbers.{number}
use salience.Json.Print.{decimal, decimal_onto}

carry : (q r p : ℕ) → q * (10 * p) + r * p ≡ (10 * q + r) * p
carry q r p = grind arith

carried : (n p m : ℕ) → n / 10 * (10 * p) + ((b'0' + n % 10 - b'0') * p + m) ≡ n * p + m
carried n p m =
    let low : b'0' + n % 10 - b'0' ≡ n % 10 = omega arith in
    let whole : 10 * (n / 10) + n % 10 ≡ n = omega arith in
    let sum = carry (n / 10) (n % 10) p ∙ ap (λ k. k * p) whole in rw low (omega (arith, sum))

-- What is written in front of `rest` is the number.
number-decimal_onto :
    (fuel n : ℕ) (rest : Text)
    → n < fuel
    → number (decimal_onto fuel n rest) ≡ n * 10 ^ length rest + number rest
unfolding decimal_onto
number-decimal_onto zero n rest h = absurd (omega arith)
number-decimal_onto (suc fuel) n rest h = elim (Bool-cases (ltb n 10)) [
  | inl e ↦ rw e (ap (λ k. k * 10 ^ length rest + number rest) (omega arith))
  | inr e ↦
      let smaller : n / 10 < fuel = ground arith in
      rw e (
        number-decimal_onto fuel (n / 10) ((b'0' + n % 10) ∷ rest) smaller
        ∙ ap (λ k. n / 10 * k + ((b'0' + n % 10 - b'0') * 10 ^ length rest + number rest))
            (pow-succ' 10 (length rest))
        ∙ carried n (10 ^ length rest) (number rest))
]

every-decimal_onto :
    (fuel n : ℕ) (rest : Text)
    → every is_digit rest ≡ true
    → every is_digit (decimal_onto fuel n rest) ≡ true
unfolding decimal_onto is_digit
every-decimal_onto zero n rest h = h
every-decimal_onto (suc fuel) n rest h = elim (Bool-cases (ltb n 10)) [
  | inl e ↦ rw e (ground arith)
  | inr e ↦ rw e (every-decimal_onto fuel (n / 10) ((b'0' + n % 10) ∷ rest) (ground arith))
]

short : (n : ℕ) → n < 10 ^ 1 → ltb n 10 ≡ true
short n h = ground arith

length-decimal_onto :
    (k fuel n : ℕ) (rest : Text)
    → n < 10 ^ suc k
    → length (decimal_onto fuel n rest) ≤ suc k + length rest
unfolding decimal_onto
length-decimal_onto k zero n rest h = omega arith
length-decimal_onto zero (suc fuel) n rest h = rw (short n h) (omega arith)
length-decimal_onto (suc k) (suc fuel) n rest h = elim (Bool-cases (ltb n 10)) [
  | inl e ↦ rw e (omega arith)
  | inr e ↦
      let p : 10 ^ suc (suc k) ≡ 10 * 10 ^ suc k = pow-succ' 10 (suc k) in
      let less : n < 10 * 10 ^ suc k = omega (arith, p, h) in
      let smaller : n / 10 < 10 ^ suc k = omega (arith, less) in
      rw e (omega (arith, length-decimal_onto k fuel (n / 10) ((b'0' + n % 10) ∷ rest) smaller))
]

longer-decimal_onto : (fuel n : ℕ) (rest : Text) → length rest ≤ length (decimal_onto fuel n rest)
unfolding decimal_onto
longer-decimal_onto zero n rest = omega arith
longer-decimal_onto (suc fuel) n rest = elim (Bool-cases (ltb n 10)) [
  | inl e ↦ rw e (omega arith)
  | inr e ↦ rw e (omega (arith, longer-decimal_onto fuel (n / 10) ((b'0' + n % 10) ∷ rest)))
]

some-decimal_onto : (fuel n : ℕ) (rest : Text) → 1 ≤ length (decimal_onto (suc fuel) n rest)
unfolding decimal_onto
some-decimal_onto fuel n rest = elim (Bool-cases (ltb n 10)) [
  | inl e ↦ rw e (omega arith)
  | inr e ↦ rw e (omega (arith, longer-decimal_onto fuel (n / 10) ((b'0' + n % 10) ∷ rest)))
]

-- `decimal` writes at least one digit, nothing but digits, at most 20 of them below 10^20, and the
-- number.
pub decimal_lem :
    (n : ℕ)
    → (number (decimal n) ≡ n)
      × (every is_digit (decimal n) ≡ true)
      × (1 ≤ length (decimal n))
      × (n < 10 ^ 20 → length (decimal n) ≤ 20)
unfolding decimal
decimal_lem n = (
  number-decimal_onto (suc n) n [] (omega arith) ∙ omega arith,
  every-decimal_onto (suc n) n [] refl,
  some-decimal_onto n n [],
  λ h. omega (arith, length-decimal_onto 19 (suc n) n [] h),
)
