-- ===== src/Semver/Order.antt =====
-- `compareSemver` orders versions: totally, and without regard to the build.
use mathlib.Core.Option
use mathlib.Core.Path.{subst}
use salience.Base.{
  sym, ◌≡◌, ◌≢◌, ◌↔◌, refl, ap, Text, Option, none, some, List, Ordering, arith, text_eq_iff, ◌>>=◌,
}
use salience.Base.Order.{
  flip, IsTotalOrder, compare-IsTotalOrder, compare_list, compare_list-IsTotalOrder, lex,
  lex-IsTotalOrder, not_gt_trans,
}
use salience.Semver.{
  Version, core, compare_text, compare_numeric_identifiers, compare_identifiers, compare_prerelease,
  compare_versions, compare_semver, parse_semver,
}

pub compare_text-IsTotalOrder : IsTotalOrder compare_text
unfolding compare_text
compare_text-IsTotalOrder = compare_list-IsTotalOrder compare-IsTotalOrder

module _ where
  open compare_text-IsTotalOrder use {swap, trans, eq, self}

  pub compare_numeric_identifiers-IsTotalOrder : IsTotalOrder compare_numeric_identifiers
  unfolding compare_numeric_identifiers
  compare_numeric_identifiers-IsTotalOrder = record {
    swap = λ a b. ground (arith, text_eq_iff a b, text_eq_iff b a, swap a b, eq a b);
    trans = λ a b c h k. ground (
      arith,
      text_eq_iff a b,
      text_eq_iff b c,
      text_eq_iff a c,
      trans a b c,
      swap a c,
      eq a c,
      swap a b,
      swap b c,
    );
    eq = λ a b h. ground (arith, text_eq_iff a b);
    self = λ a. ground (arith, text_eq_iff a a);
  }

module _ where
  open compare_numeric_identifiers-IsTotalOrder use {swap as swap_n, trans as trans_n, eq as eq_n}
  open compare_text-IsTotalOrder use {swap, trans, eq}

  compare_identifiers-swap : (a b : Text) → compare_identifiers b a ≡ flip (compare_identifiers a b)
  unfolding compare_identifiers
  compare_identifiers-swap a b =
      ground (arith, text_eq_iff a b, text_eq_iff b a, swap a b, eq a b, swap_n a b)

  compare_identifiers_trans :
      (a b c : Text)
      → compare_identifiers a b ≡ Ordering.lt
      → compare_identifiers b c ≡ Ordering.lt
      → compare_identifiers a c ≡ Ordering.lt
  unfolding compare_identifiers
  compare_identifiers_trans a b c h k = ground (
    arith,
    text_eq_iff a b,
    text_eq_iff b c,
    text_eq_iff a c,
    trans a b c,
    swap a c,
    eq a c,
    trans_n a b c,
    swap_n a b,
    swap_n b c,
    swap_n a c,
  )

  compare_identifiers-eq : (a b : Text) → compare_identifiers a b ≡ Ordering.eq → a ≡ b
  unfolding compare_identifiers
  compare_identifiers-eq a b h = ground (arith, text_eq_iff a b, eq_n a b)

  compare_identifiers_self : (a : Text) → compare_identifiers a a ≡ Ordering.eq
  unfolding compare_identifiers
  compare_identifiers_self a = ground (arith, text_eq_iff a a)

pub compare_identifiers-IsTotalOrder : IsTotalOrder compare_identifiers
compare_identifiers-IsTotalOrder = record {
  swap = compare_identifiers-swap;
  trans = compare_identifiers_trans;
  eq = compare_identifiers-eq;
  self = compare_identifiers_self;
}

module _ where
  open compare_list-IsTotalOrder compare_identifiers-IsTotalOrder use {swap, trans, eq, self}

  compare_prerelease-swap :
      (a b : Option (List Text)) → compare_prerelease b a ≡ flip (compare_prerelease a b)
  unfolding compare_prerelease
  compare_prerelease-swap none none = refl
  compare_prerelease-swap none (some b) = refl
  compare_prerelease-swap (some a) none = refl
  compare_prerelease-swap (some a) (some b) = swap a b

  compare_prerelease_trans :
      (a b c : Option (List Text))
      → compare_prerelease a b ≡ Ordering.lt
      → compare_prerelease b c ≡ Ordering.lt
      → compare_prerelease a c ≡ Ordering.lt
  unfolding compare_prerelease
  compare_prerelease_trans none none c h k = ground arith
  compare_prerelease_trans none (some b) c h k = ground arith
  compare_prerelease_trans (some a) none c h k = ground arith
  compare_prerelease_trans (some a) (some b) none h k = refl
  compare_prerelease_trans (some a) (some b) (some c) h k = trans a b c h k

  compare_prerelease-eq : (a b : Option (List Text)) → compare_prerelease a b ≡ Ordering.eq → a ≡ b
  unfolding compare_prerelease
  compare_prerelease-eq none none h = refl
  compare_prerelease-eq none (some b) h = ground arith
  compare_prerelease-eq (some a) none h = ground arith
  compare_prerelease-eq (some a) (some b) h = ap some (eq a b h)

  compare_prerelease_self : (a : Option (List Text)) → compare_prerelease a a ≡ Ordering.eq
  unfolding compare_prerelease
  compare_prerelease_self none = refl
  compare_prerelease_self (some a) = self a

compare_prerelease-IsTotalOrder : IsTotalOrder compare_prerelease
compare_prerelease-IsTotalOrder = record {
  swap = compare_prerelease-swap;
  trans = compare_prerelease_trans;
  eq = compare_prerelease-eq;
  self = compare_prerelease_self;
}

compare_core-IsTotalOrder : IsTotalOrder (compare_list compare_numeric_identifiers)
compare_core-IsTotalOrder = compare_list-IsTotalOrder compare_numeric_identifiers-IsTotalOrder

-- What `compareSemver` looks at.
abbrev precedence : Version → List Text × Option (List Text)
precedence v = (core v, v.prerelease)

abbrev ranked : (a b : List Text × Option (List Text)) → Ordering
ranked = lex (compare_list compare_numeric_identifiers) compare_prerelease

precedence-IsTotalOrder : IsTotalOrder ranked
precedence-IsTotalOrder = lex-IsTotalOrder compare_core-IsTotalOrder compare_prerelease-IsTotalOrder

module _ where
  open precedence-IsTotalOrder use {swap, trans, eq, self}

  pub compare_versions-swap : (a b : Version) → compare_versions b a ≡ flip (compare_versions a b)
  unfolding compare_versions
  compare_versions-swap a b = (swap (precedence a) (precedence b))

  pub compare_versions_trans :
      (a b c : Version)
      → compare_versions a b ≢ Ordering.gt
      → compare_versions b c ≢ Ordering.gt
      → compare_versions a c ≢ Ordering.gt
  unfolding compare_versions
  compare_versions_trans a b c h k =
      not_gt_trans precedence-IsTotalOrder (precedence a) (precedence b) (precedence c) h k

  pub compare_versions-eq_iff :
      (a b : Version)
      → (compare_versions a b ≡ Ordering.eq) ↔ ((core a ≡ core b) × (a.prerelease ≡ b.prerelease))
  unfolding compare_versions
  compare_versions-eq_iff a b = (
    λ h. let p = eq (precedence a) (precedence b) h in (ap (λ q. q.0) p, ap (λ q. q.1) p),
    λ (p, q).
        let e : precedence a ≡ precedence b = λ i. (p i, q i) in
        subst (λ x. ranked x (precedence b) ≡ Ordering.eq) (sym e) (self (precedence b)),
  )

-- `compareSemver` with its arguments exchanged has the opposite sign, and throws on the same pairs.
pub compare_semver-swap : (s t : Text) → compare_semver t s ≡ Option.map flip (compare_semver s t)
unfolding compare_semver
compare_semver-swap s t = go (parse_semver s) (parse_semver t)
  where
    go :
        (o p : Option Version)
        → (p >>= λ b. o >>= λ a. some (compare_versions b a))
          ≡ Option.map flip (o >>= λ a. p >>= λ b. some (compare_versions a b))
    go none none = refl
    go none (some b) = refl
    go (some a) none = refl
    go (some a) (some b) = ap some (compare_versions-swap a b)

-- Two accepted versions compare as equal exactly when their three numbers and their prereleases
-- are the same texts: the build metadata is ignored.
pub compare_semver-eq_iff :
    (s t : Text) (a b : Version)
    → parse_semver s ≡ some a
    → parse_semver t ≡ some b
    → (compare_semver s t ≡ some Ordering.eq) ↔ ((core a ≡ core b) × (a.prerelease ≡ b.prerelease))
unfolding compare_semver
compare_semver-eq_iff s t a b p q =
    let e = compare_versions-eq_iff a b in rw (p, q) (λ h. e.0 (ground arith), λ h. ap some (e.1 h))

-- `compareSemver` is transitive: where the first version is not above the second and the second not
-- above the third, the first and the third are comparable and the first is not above the third.
pub compare_semver_trans :
    (r s t : Text) (o p : Ordering)
    → compare_semver r s ≡ some o
    → compare_semver s t ≡ some p
    → o ≢ Ordering.gt
    → p ≢ Ordering.gt
    → (q : Ordering) × (compare_semver r t ≡ some q) × (q ≢ Ordering.gt)
unfolding compare_semver
compare_semver_trans r s t o p h k h' k' = go (parse_semver r) (parse_semver s) (parse_semver t) h k
  where
    go :
        (x y z : Option Version)
        → (x >>= λ a. y >>= λ b. some (compare_versions a b)) ≡ some o
        → (y >>= λ a. z >>= λ b. some (compare_versions a b)) ≡ some p
        → (q : Ordering) × ((x >>= λ a. z >>= λ b. some (compare_versions a b)) ≡ some q)
          × (q ≢ Ordering.gt)
    go (some a) (some b) (some c) e f =
        (compare_versions a c, refl, compare_versions_trans a b c (ground arith) (ground arith))
    go none y z e f = cc
    go (some a) none z e f = cc
    go (some a) (some b) none e f = cc
