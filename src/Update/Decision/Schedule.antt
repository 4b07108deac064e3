-- ===== src/Update/Decision/Schedule.antt =====
-- When the next check is due: `nextSuccessfulCheck`, `nextFailedCheck` and `freshStateResult`.
use native.Mathlib.Nat.{le-div_iff_mul-le, div-lt_iff_lt-mul}
use salience.Base.{
  ℕ, suc, ◌+◌, ◌*◌, ◌/◌, ◌≤◌, ◌<◌, min, ◌≡◌, refl, ap, Bool, some, ltb, arith, ◌==◌, if◌then◌else◌,
}
use salience.Update.State.{State, Candidate, state_with_failure_check}
use salience.Update.Decision.{
  Dates, check_ttl_ms, max_cache_horizon_ms, first_failure_delay_ms, later_failure_delay_ms, Sample,
  nothing, quotient, rounded_delay_ms, success_delay_ms, next_successful_check, failure_delay_ms,
  next_failed_check, state_after_failed_check, is_fresh, checked_state,
}

-- `new Date(8.64e15)` is the last date there is.
abbrev pub max_time_ms : ℕ
max_time_ms = 8640000000000000

-- A date that is written is read back.
abbrev pub IsExact : Dates → Type 0
IsExact dates = (n : ℕ) → n ≤ max_time_ms → dates.parse (dates.iso n) ≡ some n

-- The delay of a failed check behind a number of failures in a row.
abbrev pub delay_after : ℕ → ℕ
delay_after failures = if failures == 0 then first_failure_delay_ms else later_failure_delay_ms

delay_after-bound : (n : ℕ) → delay_after n ≤ max_cache_horizon_ms
delay_after-bound n = ground arith

failure_delay_ms-next : (n : ℕ) → failure_delay_ms (min (n + 1) 2) ≡ delay_after n
failure_delay_ms-next n = ground arith

rounded_delay_ms-bounds :
    (n d : ℕ)
    → n ≤ suc d
    → (207360000 ≤ rounded_delay_ms n (suc d)) × (rounded_delay_ms n (suc d) ≤ 311040000)
rounded_delay_ms-bounds n d h =
    let x = 518400000 * (4 * suc d + 2 * n) + 5 * suc d in
    let low : 207360000 ≤ x / (10 * suc d) = (le-div_iff_mul-le (omega arith)).1 (omega arith) in
    let high : x / (10 * suc d) < 311040001 = (div-lt_iff_lt-mul (omega arith)).1 (omega arith) in
    (low, omega arith)

-- A successful check is repeated after 0.8 to 1.2 times 72 hours, whatever the random number is.
pub success_delay_ms-bounds :
    (random : Sample)
    → (check_ttl_ms * 8 ≤ success_delay_ms random * 10)
      × (success_delay_ms random * 10 ≤ check_ttl_ms * 12)
      × (success_delay_ms random ≤ max_cache_horizon_ms)
unfolding success_delay_ms
success_delay_ms-bounds nothing = omega arith
success_delay_ms-bounds (quotient n below) =
    let (a, b) = rounded_delay_ms-bounds (min n (suc below)) below (omega arith) in omega arith

module _ (dates : Dates) (exact : IsExact dates) where
  fresh_until :
      (s : State) (now delay t : ℕ)
      → s.next_check_at ≡ some (dates.iso (now + delay))
      → now ≤ t
      → delay ≤ max_cache_horizon_ms
      → now + max_cache_horizon_ms ≤ max_time_ms
      → is_fresh dates s t ≡ ltb t (now + delay)
  unfolding is_fresh
  fresh_until s now delay t e after short early =
      rw (e, exact (now + delay) (omega arith)) (ground arith)

  failed_until :
      (s : State) (withdraw : Bool) (now t : ℕ)
      → now ≤ t
      → now + max_cache_horizon_ms ≤ max_time_ms
      → is_fresh dates (state_after_failed_check dates s now withdraw) t
        ≡ ltb t (now + delay_after s.consecutive_failures)
  unfolding state_after_failed_check state_with_failure_check next_failed_check
  failed_until s withdraw now t after early =
      fresh_until (state_after_failed_check dates s now withdraw) now
        (delay_after s.consecutive_failures) t
        (ap (λ k. some (dates.iso (now + k))) (failure_delay_ms-next s.consecutive_failures)) after
        (delay_after-bound s.consecutive_failures) early

  -- After a check at `now`, the cached result holds at a later time exactly until the time of the next
  -- check: after the random delay of a success; after 6 hours of the first failure in a row and 24
  -- hours of the others.
  pub is_fresh-until :
      (s : State) (c : Candidate) (random : Sample) (withdraw : Bool) (now t : ℕ)
      → now ≤ t
      → now + max_cache_horizon_ms ≤ max_time_ms
      → (is_fresh dates (checked_state dates now random s c) t
          ≡ ltb t (now + success_delay_ms random))
        × (is_fresh dates (state_after_failed_check dates s now withdraw) t
            ≡ ltb t (now + delay_after s.consecutive_failures))
  unfolding next_successful_check
  is_fresh-until s c random withdraw now t after early = (
    fresh_until (checked_state dates now random s c) now (success_delay_ms random) t refl after
        (success_delay_ms-bounds random).2 early,
    failed_until s withdraw now t after early,
  )
