-- ===== src/Semver/Grammar.antt =====
-- `parseSemver` accepts exactly the texts of well-formed versions, and loses nothing of them.
use mathlib.Core.Path.{subst}
use salience.Base.{
  some_inj, >>=-eq-some, guard-eq-some, ==_iff, le→leb, leb→le, ◌≡◌, refl, ap, sym, ◌∙◌, ℕ, ◌≤◌,
  Text, Option, none, some, List, [], ◌∷◌, Bool, true, false, arith, ◌==◌, leb, length, every,
  guard, Bool-cases, inl, inr,
}
use salience.Semver.{
  Version, is_digit, is_identifier_char, is_identifier, is_core_number, plain_prerelease,
  identifiers, of_core, parse_semver, split_first, split_on,
}
use salience.Semver.Splits.{
  Free, AllFree, Free-join, Free-append, with_rest, with_rest-split_first, split_first-with_rest,
  join, join-split_on, split_on-join, split_on-cons,
}

abbrev joined : Option (List Text) → Option Text
joined none = none
joined (some parts) = some (join b'.' parts)

-- The text of a version.
abbrev pub print_core : Version → Text
print_core v = join b'.' (v.major ∷ v.minor ∷ v.patch ∷ [])

abbrev pub print : Version → Text
print v = with_rest b'+' (with_rest b'-' (print_core v, joined v.prerelease), joined v.build)

abbrev pub HasParts : Option (List Text) → Type 0
HasParts none = Unit
HasParts (some []) = ⊥
HasParts (some (t ∷ ts)) = every is_identifier (t ∷ ts) ≡ true

pub record IsWellFormed (v : Version) : Type 0 where
  pub major : is_core_number v.major ≡ true
  pub minor : is_core_number v.minor ≡ true
  pub patch : is_core_number v.patch ≡ true
  pub prerelease : HasParts v.prerelease
  pub plain : plain_prerelease v.prerelease ≡ true
  pub build : HasParts v.build

module _ (p : ℕ → Bool) (sep : ℕ) (other : p sep ≡ false) where
  Free-of_every : (t : Text) → every p t ≡ true → Free sep t
  Free-of_every [] h = tt
  Free-of_every (c ∷ cs) h = (ground (arith, ==_iff c sep), Free-of_every cs (ground arith))

every_of_identifier : (t : Text) → is_identifier t ≡ true → every is_identifier_char t ≡ true
unfolding is_identifier
every_of_identifier [] h = cc
every_of_identifier (c ∷ cs) h = h

dot_other : is_identifier_char b'.' ≡ false
unfolding is_identifier_char
dot_other = refl

plus_other : is_identifier_char b'+' ≡ false
unfolding is_identifier_char
plus_other = refl

pub every_of_core_number : (t : Text) → is_core_number t ≡ true → every is_digit t ≡ true
unfolding is_core_number is_digit
every_of_core_number [] h = cc
every_of_core_number (c ∷ []) h = ground arith
every_of_core_number (c ∷ d ∷ ds) h = ground arith

AllFree-identifiers :
    (sep : ℕ) (ts : List Text)
    → is_identifier_char sep ≡ false
    → every is_identifier ts ≡ true
    → AllFree sep ts
AllFree-identifiers sep [] other h = tt
AllFree-identifiers sep (t ∷ ts) other h = (
  Free-of_every is_identifier_char sep other t (every_of_identifier t (ground arith)),
  AllFree-identifiers sep ts other (ground arith),
)

-- What `identifiers` reads is what `joined` writes.
identifiers-joined : (o : Option (List Text)) → HasParts o → identifiers (joined o) ≡ some o
unfolding identifiers
identifiers-joined none h = refl
identifiers-joined (some []) h = absurd h
identifiers-joined (some (t ∷ ts)) h =
    rw (split_on-join b'.' t ts (AllFree-identifiers b'.' (t ∷ ts) dot_other h)) (rw h)

joined-identifiers :
    (t : Option Text) (o : Option (List Text))
    → identifiers t ≡ some o
    → (joined o ≡ t) × HasParts o
unfolding identifiers
joined-identifiers none o h = subst (λ o. (joined o ≡ none) × HasParts o) (some_inj h) (refl, tt)
joined-identifiers (some t) o h = elim (Bool-cases (every is_identifier (split_on b'.' t))) [
  | inl e ↦
      let (u, us, p) = split_on-cons b'.' t in
      subst (λ o. (joined o ≡ some t) × HasParts o) (some_inj (rw e at h))
        (ap some (join-split_on b'.' t), rw p (rw p at e))
  | inr e ↦ cc (rw e at h)
]

of_core-eq_some :
    (ts : List Text) (pre build : Option (List Text)) (v : Version)
    → of_core ts pre build ≡ some v
    → (ts ≡ v.major ∷ v.minor ∷ v.patch ∷ [])
      × (pre ≡ v.prerelease)
      × (build ≡ v.build)
      × (is_core_number v.major ≡ true)
      × (is_core_number v.minor ≡ true)
      × (is_core_number v.patch ≡ true)
      × (plain_prerelease v.prerelease ≡ true)
unfolding of_core
of_core-eq_some [] pre build v h = cc
of_core-eq_some (a ∷ []) pre build v h = cc
of_core-eq_some (a ∷ b ∷ []) pre build v h = cc
of_core-eq_some (a ∷ b ∷ c ∷ d ∷ r) pre build v h = cc
of_core-eq_some (a ∷ b ∷ c ∷ []) pre build v h = ground arith

module _ (v : Version) (w : IsWellFormed v) where
  AllFree-core : (sep : ℕ) → is_digit sep ≡ false → AllFree sep (v.major ∷ v.minor ∷ v.patch ∷ [])
  AllFree-core sep other =
      let free = λ (t : Text) (h : is_core_number t ≡ true).
        Free-of_every is_digit sep other t (every_of_core_number t h) in
      (free v.major w.major, (free v.minor w.minor, (free v.patch w.patch, tt)))

  Free-print_core :
      (sep : ℕ) → is_digit sep ≡ false → (b'.' == sep) ≡ false → Free sep (print_core v)
  Free-print_core sep other e =
      Free-join sep (v.major ∷ v.minor ∷ v.patch ∷ []) e (AllFree-core sep other)

  Free-head : Free b'+' (with_rest b'-' (print_core v, joined v.prerelease))
  Free-head = go v.prerelease w.prerelease
    where
      go :
          (o : Option (List Text))
          → HasParts o
          → Free b'+' (with_rest b'-' (print_core v, joined o))
      go none h = Free-print_core b'+' (unfold is_digit in refl) refl
      go (some []) h = absurd h
      go (some (t ∷ ts)) h =
          Free-append b'+' (print_core v) (b'-' ∷ join b'.' (t ∷ ts))
            (Free-print_core b'+' (unfold is_digit in refl) refl)
            (refl, Free-join b'+' (t ∷ ts) refl (AllFree-identifiers b'+' (t ∷ ts) plus_other h))

  of_core_well_formed : of_core (v.major ∷ v.minor ∷ v.patch ∷ []) v.prerelease v.build ≡ some v
  unfolding of_core
  of_core_well_formed = rw (w.major, w.minor, w.patch, w.plain)

  -- The version is not changed by printing and reading it.
  pub parse_semver-print : length (print v) ≤ 128 → parse_semver (print v) ≡ some v
  unfolding parse_semver
  parse_semver-print short =
      rw
        (
          le→leb _ _ short,
          split_first-with_rest b'+' _ (joined v.build) Free-head,
          split_first-with_rest b'-' (print_core v) (joined v.prerelease)
              (Free-print_core b'-' (unfold is_digit in refl) refl),
          identifiers-joined v.prerelease w.prerelease,
          identifiers-joined v.build w.build,
          split_on-join b'.' v.major (v.minor ∷ v.patch ∷ [])
              (AllFree-core b'.' (unfold is_digit in refl)),
        )
        of_core_well_formed

-- Whatever is accepted is the text of a well-formed version, of at most 128 units.
pub print-parse_semver :
    (t : Text) (v : Version)
    → parse_semver t ≡ some v
    → (print v ≡ t) × IsWellFormed v × (length t ≤ 128)
unfolding parse_semver
print-parse_semver t v h =
    let p = split_first b'+' t in
    let q = split_first b'-' p.0 in
    let (_, fits, rest) = >>=-eq-some (guard (leb (length t) 128)) _ h in
    let (pre, e, rest') = >>=-eq-some (identifiers q.1) _ rest in
    let (build, f, last) = >>=-eq-some (identifiers p.1) _ rest' in
    let (parts, pre_eq, build_eq, a, b, c, plain) =
      of_core-eq_some (split_on b'.' q.0) pre build v last in
    let (pre_text, pre_parts) = joined-identifiers q.1 v.prerelease (rw pre_eq at e) in
    let (build_text, build_parts) = joined-identifiers p.1 v.build (rw build_eq at f) in
    let core : print_core v ≡ q.0 = ap (join b'.') (sym parts) ∙ join-split_on b'.' q.0 in
    let head : with_rest b'-' (print_core v, joined v.prerelease) ≡ p.0 =
      ap (with_rest b'-') (λ i. (core i, pre_text i)) ∙ with_rest-split_first b'-' p.0 in
    (
      ap (with_rest b'+') (λ i. (head i, build_text i)) ∙ with_rest-split_first b'+' t,
      record {
        major = a;
        minor = b;
        patch = c;
        prerelease = pre_parts;
        plain = plain;
        build = build_parts;
      },
      leb→le _ _ (guard-eq-some _ fits),
    )
