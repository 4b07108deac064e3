-- ===== src/Contract/Timestamp.antt =====
-- `validateCanonicalUtcTimestamp` of update-contract.mjs.
use mathlib.Core.Path.{subst}
use salience.Base.{
  sym, ap, ◌∙◌, some_inj, text_eq_iff, text_eq_refl, Option-cases, ◌↔◌, le→leb, Bool-cases, inl,
  inr, and-eq-true, every-eq-true, ◌≡◌, ℕ, ◌+◌, ◌-◌, ◌*◌, ◌/◌, ◌%◌, ◌≤◌, ◌<◌, Text, text_eq, [],
  ◌∷◌, Bool, true, false, not, ◌&&◌, ◌||◌, Option, none, some, leb, ltb, ◌==◌, every, if◌then◌else◌,
  arith,
}
use salience.Semver.{is_digit}

pub record Instant : Type 0 where
  pub year : ℕ
  pub month : ℕ
  pub day : ℕ
  pub hour : ℕ
  pub minute : ℕ
  pub second : ℕ

-- `UTC_SECONDS`, and the numbers in the places of its digits.
abbrev two : ℕ → ℕ → ℕ
two a b = (a - b'0') * 10 + (b - b'0')

abbrev separators : (d1 d2 t c1 c2 z : ℕ) → Bool
separators d1 d2 t c1 c2 z =
    d1 == b'-' && d2 == b'-' && t == b'T' && c1 == b':' && c2 == b':' && z == b'Z'

unfoldable pub utc_seconds : Text → Option Instant
utc_seconds
      (y1 ∷ y2 ∷ y3 ∷ y4 ∷ d1 ∷ m1 ∷ m2 ∷ d2 ∷ a1 ∷ a2 ∷ t ∷ h1 ∷ h2 ∷ c1 ∷ i1 ∷ i2 ∷ c2 ∷ s1 ∷ s2
        ∷ z ∷ []) =
    if every is_digit (y1 ∷ y2 ∷ y3 ∷ y4 ∷ m1 ∷ m2 ∷ a1 ∷ a2 ∷ h1 ∷ h2 ∷ i1 ∷ i2 ∷ s1 ∷ s2 ∷ [])
      && separators d1 d2 t c1 c2 z
    then some (record {
      year = two y1 y2 * 100 + two y3 y4;
      month = two m1 m2;
      day = two a1 a2;
      hour = two h1 h2;
      minute = two i1 i2;
      second = two s1 s2;
    })
    else none
utc_seconds _ = none

abbrev is_leap : ℕ → Bool
is_leap y = y % 4 == 0 && (not (y % 100 == 0) || y % 400 == 0)

unfoldable pub days_in_month : ℕ → ℕ → ℕ
days_in_month y m =
    if m == 2
    then (if is_leap y then 29 else 28)
    else if m == 4 || m == 6 || m == 9 || m == 11
    then 30
    else 31

-- The calendar date of day `d` of a month, for `d` at most one month too large.
abbrev roll : ℕ → ℕ → ℕ → ℕ × ℕ × ℕ
roll y m d =
    if leb d (days_in_month y m)
    then (y, m, d)
    else if m == 12
    then (y + 1, 1, d - days_in_month y m)
    else (y, m + 1, d - days_in_month y m)

-- `Date.parse` of such a text, as the instant that it stands for; `none` is NaN. A day of the month
-- up to 31 is accepted and runs over into the next month, and 24:00:00 into the next day.
unfoldable pub date_parse : Instant → Option Instant
date_parse i =
    if leb 1 i.month
      && leb i.month 12
      && leb 1 i.day
      && leb i.day 31
      && leb i.minute 59
      && leb i.second 59
      && (leb i.hour 23 || (i.hour == 24 && i.minute == 0 && i.second == 0))
    then (if i.hour == 24
        then (let (y, m, d) = roll i.year i.month i.day in
            let (y', m', d') = roll y m (d + 1) in
            some (record { year = y'; month = m'; day = d'; hour = 0; minute = 0; second = 0 }))
        else (let (y, m, d) = roll i.year i.month i.day in
            some (record i { year = y; month = m; day = d })))
    else none

abbrev pad2 : ℕ → Text → Text
pad2 n rest = (b'0' + n / 10 % 10) ∷ (b'0' + n % 10) ∷ rest

-- `new Date(timestamp).toISOString().replace('.000Z', 'Z')`; years above 9999 take a sign.
unfoldable pub to_iso_string : Instant → Text
to_iso_string i =
    let day =
      b'-'
      ∷ pad2 i.month (
          b'-'
          ∷ pad2 i.day
              (b'T' ∷ pad2 i.hour (b':' ∷ pad2 i.minute (b':' ∷ pad2 i.second (b'Z' ∷ []))))) in
    let year = pad2 (i.year / 100) (pad2 i.year day) in
    if ltb 9999 i.year then b'+' ∷ pad2 (i.year / 10000) year else year

-- The text is accepted, and returned as it is.
unfoldable pub is_canonical_utc_timestamp : Text → Bool
is_canonical_utc_timestamp value = elim (utc_seconds value) [
  | none ↦ false
  | some i ↦ elim (date_parse i) [ none ↦ false | some j ↦ text_eq (to_iso_string j) value ]
]

-- A time that the calendar and the clock have.
pub record IsRealInstant (i : Instant) : Type 0 where
  pub month_low : 1 ≤ i.month
  pub month_high : i.month ≤ 12
  pub day_low : 1 ≤ i.day
  pub day_high : i.day ≤ days_in_month i.year i.month
  pub hour : i.hour < 24
  pub minute : i.minute < 60
  pub second : i.second < 60

days_in_month-le : (y m : ℕ) → days_in_month y m ≤ 31
unfolding days_in_month
days_in_month-le y m = ground arith

date_parse-real : (i : Instant) → IsRealInstant i → date_parse i ≡ some i
unfolding date_parse
date_parse-real i r =
    let late : (i.hour == 24) ≡ false = ground arith in
    let early : leb i.hour 23 ≡ true = ground arith in
    let minute : leb i.minute 59 ≡ true = ground arith in
    let second : leb i.second 59 ≡ true = ground arith in
    let day : leb i.day 31 ≡ true = ground (arith, days_in_month-le i.year i.month) in
    rw (
      le→leb _ _ r.month_low,
      le→leb _ _ r.month_high,
      le→leb _ _ r.day_low,
      day,
      minute,
      second,
      early,
      late,
      le→leb _ _ r.day_high,
    )

real-date_parse : (i : Instant) → date_parse i ≡ some i → IsRealInstant i
unfolding date_parse
real-date_parse i h = ground arith

module _ (a b : ℕ) (h : is_digit a ≡ true) (k : is_digit b ≡ true) where
  two_high : b'0' + two a b / 10 % 10 ≡ a
  unfolding is_digit
  two_high =
      let bounds : (b'0' ≤ a) × (a ≤ b'9') × (b'0' ≤ b) × (b ≤ b'9') = ground arith in omega arith

  two_low : b'0' + two a b % 10 ≡ b
  unfolding is_digit
  two_low =
      let bounds : (b'0' ≤ a) × (a ≤ b'9') × (b'0' ≤ b) × (b ≤ b'9') = ground arith in omega arith

  two-lt : two a b < 100
  unfolding is_digit
  two-lt = ground arith

-- The digits of a number of four digits, from those of its halves.
module _ (n m : ℕ) (h : n < 100) (k : m < 100) where
  year_short : ltb 9999 (n * 100 + m) ≡ false
  year_short = ground arith

  year_1 : (n * 100 + m) / 100 / 10 % 10 ≡ n / 10 % 10
  year_1 = omega arith

  year_2 : (n * 100 + m) / 100 % 10 ≡ n % 10
  year_2 = omega arith

  year_3 : (n * 100 + m) / 10 % 10 ≡ m / 10 % 10
  year_3 = omega arith

  year_4 : (n * 100 + m) % 10 ≡ m % 10
  year_4 = omega arith

separators-eq :
    (d1 d2 t c1 c2 z : ℕ)
    → separators d1 d2 t c1 c2 z ≡ true
    → (d1 ≡ b'-') × (d2 ≡ b'-') × (t ≡ b'T') × (c1 ≡ b':') × (c2 ≡ b':') × (z ≡ b'Z')
separators-eq d1 d2 t c1 c2 z h = ground arith

-- Each part has the number of digits that its place has.
record Fits (i : Instant) : Type 0 where
  year : i.year < 10000
  month : i.month < 100
  day : i.day < 100
  hour : i.hour < 100
  minute : i.minute < 100
  second : i.second < 100

to_iso_string-utc_seconds :
    (t : Text) (i : Instant) → utc_seconds t ≡ some i → (to_iso_string i ≡ t) × Fits i
unfolding utc_seconds to_iso_string
to_iso_string-utc_seconds
      (y1 ∷ y2 ∷ y3 ∷ y4 ∷ d1 ∷ m1 ∷ m2 ∷ d2 ∷ a1 ∷ a2 ∷ t ∷ h1 ∷ h2 ∷ c1 ∷ i1 ∷ i2 ∷ c2 ∷ s1 ∷ s2
        ∷ z ∷ [])
      i h =
    let text : Text =
      y1 ∷ y2 ∷ y3 ∷ y4 ∷ d1 ∷ m1 ∷ m2 ∷ d2 ∷ a1 ∷ a2 ∷ t ∷ h1 ∷ h2 ∷ c1 ∷ i1 ∷ i2 ∷ c2 ∷ s1 ∷ s2
      ∷ z ∷ [] in
    let digits = y1 ∷ y2 ∷ y3 ∷ y4 ∷ m1 ∷ m2 ∷ a1 ∷ a2 ∷ h1 ∷ h2 ∷ i1 ∷ i2 ∷ s1 ∷ s2 ∷ [] in
    elim (Bool-cases (every is_digit digits && separators d1 d2 t c1 c2 z)) [
      | inr e ↦ cc (rw e at h)
      | inl e ↦
          let (ds, ss) = and-eq-true (every is_digit digits) (separators d1 d2 t c1 c2 z) e in
          let (
            dy1,
            (
              dy2,
              (dy3, (dy4, (dm1, (dm2, (da1, (da2, (dh1, (dh2, (di1, (di2, (ds1, (ds2, _)))))))))))),
            ),
          ) =
            every-eq-true is_digit digits ds in
          let (e1, e2, et, e3, e4, ez) = separators-eq d1 d2 t c1 c2 z ss in
          let n = two y1 y2 in
          let m = two y3 y4 in
          let n_lt = two-lt y1 y2 dy1 dy2 in
          let m_lt = two-lt y3 y4 dy3 dy4 in
          let found : Instant = record {
            year = n * 100 + m;
            month = two m1 m2;
            day = two a1 a2;
            hour = two h1 h2;
            minute = two i1 i2;
            second = two s1 s2;
          } in
          let same : found ≡ i = some_inj (rw e at h) in
          let digit = λ (p q : ℕ) (r : p ≡ q). ap (λ (x : ℕ). b'0' + x) r in
          subst (λ j. (to_iso_string j ≡ text) × Fits j) same
            (
              rw (year_short n m n_lt m_lt) (λ k.
                  (digit _ _ (year_1 n m n_lt m_lt) ∙ two_high y1 y2 dy1 dy2) k
                  ∷ (digit _ _ (year_2 n m n_lt m_lt) ∙ two_low y1 y2 dy1 dy2) k
                  ∷ (digit _ _ (year_3 n m n_lt m_lt) ∙ two_high y3 y4 dy3 dy4) k
                  ∷ (digit _ _ (year_4 n m n_lt m_lt) ∙ two_low y3 y4 dy3 dy4) k
                  ∷ (sym e1) k
                  ∷ two_high m1 m2 dm1 dm2 k
                  ∷ two_low m1 m2 dm1 dm2 k
                  ∷ (sym e2) k
                  ∷ two_high a1 a2 da1 da2 k
                  ∷ two_low a1 a2 da1 da2 k
                  ∷ (sym et) k
                  ∷ two_high h1 h2 dh1 dh2 k
                  ∷ two_low h1 h2 dh1 dh2 k
                  ∷ (sym e3) k
                  ∷ two_high i1 i2 di1 di2 k
                  ∷ two_low i1 i2 di1 di2 k
                  ∷ (sym e4) k
                  ∷ two_high s1 s2 ds1 ds2 k
                  ∷ two_low s1 s2 ds1 ds2 k
                  ∷ (sym ez) k
                  ∷ []),
              record {
                year = omega arith;
                month = two-lt m1 m2 dm1 dm2;
                day = two-lt a1 a2 da1 da2;
                hour = two-lt h1 h2 dh1 dh2;
                minute = two-lt i1 i2 di1 di2;
                second = two-lt s1 s2 ds1 ds2;
              },
            )
    ]
to_iso_string-utc_seconds _ i h = cc

pad2-inj : (n m : ℕ) (r s : Text) → pad2 n r ≡ pad2 m s → (n % 100 ≡ m % 100) × (r ≡ s)
pad2-inj n m r s e =
    let high : n / 10 % 10 ≡ m / 10 % 10 = ground arith in
    let low : n % 10 ≡ m % 10 = ground arith in (omega arith, cc)

head_inj : {a b : ℕ} {r s : Text} → ◌≡◌ {A = Text} (a ∷ r) (b ∷ s) → a ≡ b
head_inj h = cc

cons_inj : {a b : ℕ} {r s : Text} → ◌≡◌ {A = Text} (a ∷ r) (b ∷ s) → r ≡ s
cons_inj h = cc

days_in_month-ge : (y m : ℕ) → 28 ≤ days_in_month y m
unfolding days_in_month
days_in_month-ge y m = ground arith

date_parse-Fits : (i j : Instant) → date_parse i ≡ some j → j.year < 10000 → Fits j
unfolding date_parse
date_parse-Fits i j h short = record {
  year = short;
  month = ground arith;
  day = ground arith;
  hour = ground arith;
  minute = ground arith;
  second = ground arith;
}

to_iso_string-inj : (i j : Instant) → Fits i → Fits j → to_iso_string i ≡ to_iso_string j → i ≡ j
unfolding to_iso_string
to_iso_string-inj i j f g h =
    let short : ltb 9999 i.year ≡ false = ground arith in
    let short' : ltb 9999 j.year ≡ false = ground arith in
    let (century, h1) = pad2-inj _ _ _ _ (rw (short, short') at h) in
    let (year, h2) = pad2-inj _ _ _ _ h1 in
    let (month, h3) = pad2-inj _ _ _ _ (cons_inj h2) in
    let (day, h4) = pad2-inj _ _ _ _ (cons_inj h3) in
    let (hour, h5) = pad2-inj _ _ _ _ (cons_inj h4) in
    let (minute, h6) = pad2-inj _ _ _ _ (cons_inj h5) in
    let (second, _) = pad2-inj _ _ _ _ (cons_inj h6) in ground arith

short_year : (i j : Instant) → Fits i → to_iso_string j ≡ to_iso_string i → j.year < 10000
unfolding to_iso_string
short_year i j f h =
    let short : ltb 9999 i.year ≡ false = ground arith in
    elim (Bool-cases (ltb 9999 j.year)) [
      | inr e ↦ ground arith
      | inl e ↦ absurd (omega (arith, head_inj (rw (short, e) at h)))
    ]

-- A text is accepted exactly when it has the form of a time in UTC to the second and the calendar
-- and the clock have that time.
pub is_canonical_utc_timestamp_iff :
    (t : Text)
    → (is_canonical_utc_timestamp t ≡ true)
      ↔ ((i : Instant) × (utc_seconds t ≡ some i) × IsRealInstant i)
unfolding is_canonical_utc_timestamp
is_canonical_utc_timestamp_iff t = (accepted, real)
  where
    accepted :
        is_canonical_utc_timestamp t ≡ true
        → (i : Instant) × (utc_seconds t ≡ some i) × IsRealInstant i
    accepted h = elim (Option-cases (utc_seconds t)) [
      | inl e ↦ cc (rw (e, is_canonical_utc_timestamp) at h)
      | inr (i, e) ↦ elim (Option-cases (date_parse i)) [
        | inl p ↦ cc (rw (e, p, is_canonical_utc_timestamp) at h)
        | inr (j, p) ↦
            let (text, fits) = to_iso_string-utc_seconds t i e in
            let printed : to_iso_string j ≡ t =
              (text_eq_iff _ _).0 (rw (e, p, is_canonical_utc_timestamp) at h) in
            let short = short_year i j fits (printed ∙ sym text) in
            let same =
              to_iso_string-inj j i (date_parse-Fits i j p short) fits (printed ∙ sym text) in
            (i, e, real-date_parse i (p ∙ ap some same))
      ]
    ]

    real :
        (i : Instant) × (utc_seconds t ≡ some i) × IsRealInstant i
        → is_canonical_utc_timestamp t ≡ true
    real (i, e, r) =
        let (text, _) = to_iso_string-utc_seconds t i e in
        rw (e, date_parse-real i r, text, is_canonical_utc_timestamp) (text_eq_refl t)
