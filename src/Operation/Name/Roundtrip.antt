-- ===== src/Operation/Name/Roundtrip.antt =====
-- The name of an operation is read as its kind and generation.
use salience.Base.{
  ℕ, zero, suc, ◌-◌, ◌^◌, ◌≤◌, ◌<◌, ◌≡◌, refl, Text, text_eq, [], ◌∷◌, ◌++◌, true, not, ◌==◌, some,
  arith, length, length-append, every,
}
use salience.Json.Print.{decimal}
use salience.Json.Print.Digits.{decimal_lem}
use salience.Semver.{is_digit}
use salience.Semver.Numbers.{number}
use salience.Semver.Splits.{Free, split_first-with_rest}
use salience.Operation.Name.{
  OperationKind, reserved, pending, committed, fenced, cancelled, kind_text, kind_of, zeros, padded,
  is_generation, operation_name, parse_operation_name,
}

number-zeros : (n : ℕ) (t : Text) → number (zeros n ++ t) ≡ number t
number-zeros zero t = refl
number-zeros (suc n) t = omega (arith, number-zeros n t)

every-zeros : (n : ℕ) (t : Text) → every is_digit t ≡ true → every is_digit (zeros n ++ t) ≡ true
unfolding is_digit
every-zeros zero t h = h
every-zeros (suc n) t h = every-zeros n t h

length-zeros : (n : ℕ) → length (zeros n) ≡ n
length-zeros zero = refl
length-zeros (suc n) = omega (arith, length-zeros n)

length-padded : (t : Text) → length t ≤ 20 → length (padded t) ≡ 20
length-padded t h =
    omega (arith, length-append (zeros (20 - length t)) t, length-zeros (20 - length t))

is_generation-padded : (g : ℕ) → g < 10 ^ 20 → is_generation (padded (decimal g)) ≡ true
is_generation-padded g h =
    let (_, digits, _, short) = decimal_lem g in
    let size = length-padded (decimal g) (short h) in
    rw (size, every-zeros (20 - length (decimal g)) (decimal g) digits) refl

Free-every : (t : Text) → every (λ c. not (c == b'-')) t ≡ true → Free b'-' t
Free-every [] h = tt
Free-every (c ∷ cs) h = (ground arith, Free-every cs (ground arith))

kind_of-kind_text : (k : OperationKind) → (kind_of (kind_text k) ≡ some k) × Free b'-' (kind_text k)
unfolding kind_text text_eq
kind_of-kind_text reserved = (refl, Free-every (kind_text reserved) refl)
kind_of-kind_text pending = (refl, Free-every (kind_text pending) refl)
kind_of-kind_text committed = (refl, Free-every (kind_text committed) refl)
kind_of-kind_text fenced = (refl, Free-every (kind_text fenced) refl)
kind_of-kind_text cancelled = (refl, Free-every (kind_text cancelled) refl)

-- Of a generation that fits in 20 digits, the name is read back as the kind and the generation.
pub parse_operation_name-operation_name :
    (k : OperationKind) (g : ℕ)
    → g < 10 ^ 20
    → parse_operation_name (operation_name (kind_text k) g) ≡ some (k, g)
unfolding parse_operation_name operation_name
parse_operation_name-operation_name k g h =
    let (kind, free) = kind_of-kind_text k in
    let (value, _, _, _) = decimal_lem g in
    rw
      (
        split_first-with_rest b'-' (kind_text k) (some (padded (decimal g))) free,
        kind,
        is_generation-padded g h,
        number-zeros (20 - length (decimal g)) (decimal g),
        value,
      )
      refl
