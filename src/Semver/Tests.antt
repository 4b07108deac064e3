-- ===== src/Semver/Tests.antt =====
-- Runs of the semantic version code.
use salience.Base.{
  ◌≡◌, refl, ◌≢◌, ◌≤◌, codes, some, none, Ordering, compare, [], ◌∷◌, map, length, arith,
}
use salience.Base.Order.{then_by, compare_list}
use salience.Semver.{
  Version, core, compare_versions, compare_semver, parse_run, parse_semver, compare_prerelease,
  is_core_number, plain_prerelease, is_digit, is_identifier, is_identifier_char, is_numeric,
  has_leading_zero, compare_text,
}
use salience.Semver.Order.{compare_semver_trans}
use salience.Semver.Numbers.{number, compare_semver-numbers}
use salience.Semver.Grammar.{print, IsWellFormed, print-parse_semver, parse_semver-print}

numeric_order : compare_semver (codes "1.10.0") (codes "1.9.9") ≡ some Ordering.gt
unfolding compare_semver parse_run compare_versions
numeric_order = refl

prerelease_order :
    compare_semver (codes "1.0.0-alpha.2") (codes "1.0.0-alpha.10") ≡ some Ordering.lt
unfolding compare_semver parse_run compare_versions
prerelease_order = refl

build_ignored : compare_semver (codes "1.0.0+a-b") (codes "1.0.0+c") ≡ some Ordering.eq
unfolding compare_semver parse_run compare_versions
build_ignored = refl

leading_zero : parse_semver (codes "1.0.0-a.01") ≡ none
unfolding parse_run
leading_zero = refl

abbrev one_ten : Version
one_ten = record {
  major = codes "1";
  minor = codes "10";
  patch = codes "0";
  prerelease = none;
  build = none;
}

abbrev one_nine_beta : Version
one_nine_beta = record {
  major = codes "1";
  minor = codes "9";
  patch = codes "9";
  prerelease = some (codes "beta" ∷ codes "2" ∷ []);
  build = some (codes "x" ∷ []);
}

one_ten_parsed : parse_semver (codes "1.10.0") ≡ some one_ten
unfolding parse_run
one_ten_parsed = refl

one_nine_beta_parsed : parse_semver (codes "1.9.9-beta.2+x") ≡ some one_nine_beta
unfolding parse_run
one_nine_beta_parsed = refl

newer : compare_semver (codes "1.9.9-beta.2+x") (codes "1.10.0") ≡ some Ordering.lt
unfolding compare_semver parse_run compare_versions
newer = refl

newest : compare_semver (codes "1.10.0") (codes "2.0.0") ≡ some Ordering.lt
unfolding compare_semver parse_run compare_versions compare_text
newest = refl

compare_semver_trans_example :
    (q : Ordering) × (compare_semver (codes "1.9.9-beta.2+x") (codes "2.0.0") ≡ some q)
    × (q ≢ Ordering.gt)
compare_semver_trans_example =
    compare_semver_trans (codes "1.9.9-beta.2+x") (codes "1.10.0") (codes "2.0.0") Ordering.lt
      Ordering.lt newer newest (λ e. cc) (λ e. cc)

compare_semver-numbers_example :
    compare_semver (codes "1.9.9-beta.2+x") (codes "1.10.0")
    ≡ some (
        then_by
          (compare_list compare (map number (core one_nine_beta)) (map number (core one_ten)))
          (compare_prerelease one_nine_beta.prerelease one_ten.prerelease))
compare_semver-numbers_example =
    compare_semver-numbers (codes "1.9.9-beta.2+x") (codes "1.10.0") one_nine_beta one_ten
      one_nine_beta_parsed one_ten_parsed

print-parse_semver_example :
    (print one_nine_beta ≡ codes "1.9.9-beta.2+x")
    × IsWellFormed one_nine_beta
    × (length (codes "1.9.9-beta.2+x") ≤ 128)
print-parse_semver_example =
    print-parse_semver (codes "1.9.9-beta.2+x") one_nine_beta one_nine_beta_parsed

one_nine_beta-IsWellFormed : IsWellFormed one_nine_beta
unfolding is_core_number plain_prerelease is_digit is_identifier is_identifier_char is_numeric
    has_leading_zero
one_nine_beta-IsWellFormed = record {
  major = refl;
  minor = refl;
  patch = refl;
  prerelease = refl;
  plain = refl;
  build = refl;
}

parse_semver-print_example : parse_semver (print one_nine_beta) ≡ some one_nine_beta
parse_semver-print_example =
    parse_semver-print one_nine_beta one_nine_beta-IsWellFormed (omega arith)
