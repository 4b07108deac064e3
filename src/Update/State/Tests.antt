-- ===== src/Update/State/Tests.antt =====
-- Runs of the state code.
use salience.Base.{◌≡◌, refl, codes, includes, some, []}
use salience.Update.Samples.{digest, offering, offering_encoded, offering-IsState}
use salience.Update.State.{state_value, state_after_acknowledgement}
use salience.Update.State.Encode.{encode_recoverable_state}
use salience.Update.State.Normalize.{normalize_state}
use salience.Update.State.Normalize.Roundtrip.{normalize_state-state_value}
use salience.Update.State.Acknowledge.{encode_recoverable_state-acknowledged}

normalize_state-state_value_example :
    normalize_state (state_value offering) (some (codes "2.1.0")) ≡ some offering
normalize_state-state_value_example =
    normalize_state-state_value (codes "2.1.0") offering offering-IsState

encode_recoverable_state-acknowledged_example :
    encode_recoverable_state (state_after_acknowledgement offering digest)
    ≡ some (state_value (state_after_acknowledgement offering digest))
unfolding includes
encode_recoverable_state-acknowledged_example =
    encode_recoverable_state-acknowledged offering (state_value offering) digest [] offering_encoded
      refl refl
