-- ===== src/Update/State/Encode.antt =====
-- `encodeBoundedState` and `encodeRecoverableState`
use salience.Base.{
  ℕ, ◌+◌, ◌*◌, Text, codes, text_eq, includes, List, [], ◌∷◌, Bool, true, false, ◌&&◌, Option, none,
  some, leb, if◌then◌else◌,
}
use salience.Json.{Value}
use salience.Json.Print.{stringify, stringify_run, utf8_length}
use salience.Update.State.{
  State, state_value, state_after_acknowledgement, state_with_failure_check, check_value,
  notification_value,
}

abbrev pub max_cache_state_bytes : ℕ
max_cache_state_bytes = 64 * 1024

abbrev pub longest_iso_timestamp : Text
longest_iso_timestamp = codes "+275760-09-13T00:00:00.000Z"

-- The text with its line break, and what it holds as JSON.
unfoldable pub state_bytes : State → ℕ
state_bytes state = utf8_length (stringify (state_value state)) + 1

unfoldable pub is_bounded : State → Bool
is_bounded state = leb (state_bytes state) max_cache_state_bytes

unfoldable pub encode_bounded_state : State → Option Value
encode_bounded_state state = if is_bounded state then some (state_value state) else none

-- The state, and the state after one more failed check, fit in the bound.
unfoldable pub is_recoverable : State → Bool
is_recoverable state =
    is_bounded state
    && is_bounded (state_with_failure_check state (some longest_iso_timestamp) 2 false)

-- The loop over `offeredDigests`, with the state that it threads.
unfoldable pub acknowledgements_fit : State → List Text → Bool
acknowledgements_fit state [] = true
acknowledgements_fit state (digest ∷ digests) =
    let next = state_after_acknowledgement state digest in
    is_recoverable next && acknowledgements_fit next digests

unfoldable pub encode_recoverable_state : State → Option Value
encode_recoverable_state state =
    if is_recoverable state && acknowledgements_fit state state.offered_digests
    then some (state_value state)
    else none

-- To run the encoder in a test, unfold this.
unfoldable pub encode_run : State → Option Value
unfolding encode_recoverable_state acknowledgements_fit is_recoverable encode_bounded_state
    is_bounded state_bytes state_after_acknowledgement state_with_failure_check includes text_eq
    stringify_run utf8_length state_value check_value notification_value
encode_run = encode_recoverable_state
