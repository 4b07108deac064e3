-- ===== src/Json/Tests.antt =====
-- Runs of the tests on values, of the printer and of the key tests.
use salience.Base.{◌≡◌, refl, codes, text_eq, [], ◌∷◌, true}
use salience.Json.{Value, null, undefined, object, object_of, array, array_of, get, integer, negsuc}
use salience.Json.Print.{stringify, stringify_run}
use salience.Json.Keys.{has_exact_keys, has_exact_keys_run}

abbrev sample : Value
sample = object (
    object_of (
      (codes "a", null)
      ∷ (codes "b", array (array_of (codes "x\"" ∷ [])))
      ∷ (codes "c", undefined)
      ∷ (codes "d", integer (negsuc 11))
      ∷ []))

get_test : get (codes "a") sample ≡ null
unfolding get text_eq
get_test = refl

stringify_test : stringify sample ≡ codes "{\"a\":null,\"b\":[\"x\\\"\"],\"d\":-12}"
unfolding stringify_run
stringify_test = refl

exact_keys_test : has_exact_keys sample (codes "d" ∷ codes "c" ∷ codes "b" ∷ codes "a" ∷ []) ≡ true
unfolding has_exact_keys_run
exact_keys_test = refl
