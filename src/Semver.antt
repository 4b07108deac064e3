-- ===== src/Semver.antt =====
-- Semantic versions: `parseSemver`, `compareSemver` and their helpers of
-- .agents/skills/archify/scripts/update-contract.mjs.
pub mod Order
pub mod Grammar
pub mod Numbers
pub mod Splits
mod Tests
use salience.Base.{
  ℕ, Text, codes, text_eq, Option, none, some, List, [], ◌∷◌, ◌++◌, Bool, true, false, not, ◌&&◌,
  ◌||◌, Ordering, compare, leb, ltb, ◌==◌, if◌then◌else◌, length, every, any, ◌>>=◌, ◌>>◌, guard,
}
use salience.Base.Order.{compare_list, then_by}

-- What `parseSemver` returns. `core` is the list of the three numbers.
pub record Version : Type 0 where
  pub major : Text
  pub minor : Text
  pub patch : Text
  pub prerelease : Option (List Text)
  pub build : Option (List Text)

abbrev pub core : Version → List Text
core v = v.major ∷ v.minor ∷ v.patch ∷ []

unfoldable pub is_digit : ℕ → Bool
is_digit c = leb b'0' c && leb c b'9'

-- [0-9A-Za-z-]
unfoldable pub is_identifier_char : ℕ → Bool
unfolding is_digit
is_identifier_char c =
    is_digit c || (leb b'A' c && leb c b'Z') || (leb b'a' c && leb c b'z') || c == b'-'

-- [0-9A-Za-z-]+
unfoldable pub is_identifier : Text → Bool
unfolding is_identifier_char
is_identifier [] = false
is_identifier (c ∷ cs) = is_identifier_char c && every is_identifier_char cs

-- 0|[1-9]\d*
unfoldable pub is_core_number : Text → Bool
unfolding is_digit
is_core_number [] = false
is_core_number (c ∷ cs) = if c == b'0' then length cs == 0 else is_digit c && every is_digit cs

-- /^\d+$/
unfoldable pub is_numeric : Text → Bool
unfolding is_digit
is_numeric [] = false
is_numeric (c ∷ cs) = is_digit c && every is_digit cs

-- A numeric identifier of more than one digit that starts with 0.
unfoldable pub has_leading_zero : Text → Bool
unfolding is_numeric
has_leading_zero [] = false
has_leading_zero (c ∷ cs) = is_numeric (c ∷ cs) && leb 2 (length (c ∷ cs)) && c == b'0'

abbrev pub cons_fst : ℕ → Text × Option Text → Text × Option Text
cons_fst c (s, t) = (c ∷ s, t)

-- The text before the first separator, and the text behind it.
unfoldable pub split_first : ℕ → Text → Text × Option Text
split_first sep [] = ([], none)
split_first sep (c ∷ cs) =
    let rest = split_first sep cs in if c == sep then ([], some cs) else cons_fst c rest

abbrev pub cons_head : ℕ → List Text → List Text
cons_head c [] = (c ∷ []) ∷ []
cons_head c (s ∷ ss) = (c ∷ s) ∷ ss

-- `text.split(sep)`
unfoldable pub split_on : ℕ → Text → List Text
split_on sep [] = [] ∷ []
split_on sep (c ∷ cs) =
    let rest = split_on sep cs in if c == sep then [] ∷ rest else cons_head c rest

unfoldable pub identifiers : Option Text → Option (Option (List Text))
identifiers none = some none
identifiers (some t) =
    let parts = split_on b'.' t in if every is_identifier parts then some (some parts) else none

unfoldable pub plain_prerelease : Option (List Text) → Bool
unfolding has_leading_zero
plain_prerelease none = true
plain_prerelease (some parts) = not (any has_leading_zero parts)

unfoldable pub of_core : List Text → Option (List Text) → Option (List Text) → Option Version
of_core (a ∷ b ∷ c ∷ []) pre build =
    if is_core_number a && is_core_number b && is_core_number c && plain_prerelease pre
    then some (record { major = a; minor = b; patch = c; prerelease = pre; build = build })
    else none
of_core _ pre build = none

-- The match of `SEMVER`: a `+` can only begin the build, and the first `-` before it the
-- prerelease. `none` is the thrown `UpdateContractError`.
unfoldable pub parse_semver : Text → Option Version
parse_semver value = do
  guard (leb (length value) 128)
  let (head, build_text) = split_first b'+' value
  let (core_text, prerelease_text) = split_first b'-' head
  prerelease ← identifiers prerelease_text
  build ← identifiers build_text
  of_core (split_on b'.' core_text) prerelease build

-- `left < right` on strings, by code units.
unfoldable pub compare_text : Text → Text → Ordering
unfolding compare_list
compare_text = compare_list compare

abbrev pub text_lt : Text → Text → Bool
text_lt s t = elim (compare_text s t) [ Ordering.lt ↦ true | _ ↦ false ]

unfoldable pub compare_numeric_identifiers : Text → Text → Ordering
unfolding text_eq
compare_numeric_identifiers left right =
    if not (length left == length right)
    then (if ltb (length left) (length right) then Ordering.lt else Ordering.gt)
    else if text_eq left right
    then Ordering.eq
    else if text_lt left right
    then Ordering.lt
    else Ordering.gt

-- The body of the loop of `comparePrerelease`, where both identifiers are there.
unfoldable pub compare_identifiers : Text → Text → Ordering
unfolding text_eq is_numeric compare_numeric_identifiers
compare_identifiers left right =
    if text_eq left right
    then Ordering.eq
    else if is_numeric left && is_numeric right
    then compare_numeric_identifiers left right
    else if is_numeric left
    then Ordering.lt
    else if is_numeric right
    then Ordering.gt
    else if text_lt left right
    then Ordering.lt
    else Ordering.gt

unfoldable pub compare_prerelease : Option (List Text) → Option (List Text) → Ordering
unfolding compare_list compare_identifiers
compare_prerelease none none = Ordering.eq
compare_prerelease none (some right) = Ordering.gt
compare_prerelease (some left) none = Ordering.lt
compare_prerelease (some left) (some right) = compare_list compare_identifiers left right

-- `compareSemver` behind its two calls of `parseSemver`.
unfoldable pub compare_versions : Version → Version → Ordering
unfolding compare_list compare_numeric_identifiers compare_prerelease
compare_versions left right =
    then_by (compare_list compare_numeric_identifiers (core left) (core right))
      (compare_prerelease left.prerelease right.prerelease)

unfoldable pub compare_semver : Text → Text → Option Ordering
compare_semver left_value right_value = do
  left ← parse_semver left_value
  right ← parse_semver right_value
  some (compare_versions left right)

pub data Channel : Type 0 where
  stable development : Channel

abbrev pub channel_of : Option (List Text) → Channel
channel_of none = Channel.stable
channel_of (some _) = Channel.development

unfoldable pub release_channel_for_version : Text → Option Channel
release_channel_for_version value = do v ← parse_semver value; some (channel_of v.prerelease)

abbrev pub is_core_only : Option (List Text) → Option (List Text) → Bool
is_core_only none none = true
is_core_only _ _ = false

unfoldable pub is_stable_core_version : Text → Bool
is_stable_core_version value = elim (parse_semver value) [
  | some v ↦ is_core_only v.prerelease v.build
  | none ↦ false
]

-- To run `parse_semver` in a test, unfold this.
unfoldable pub parse_run : Text → Option Version
unfolding parse_semver split_first split_on identifiers of_core is_identifier is_core_number
    plain_prerelease
parse_run = parse_semver
