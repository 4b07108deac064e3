-- ===== src/Json.antt =====
-- The values that `JSON.parse` gives, the tests that the scripts make on them, and the text that
-- `JSON.stringify` writes.
mod Tests
pub mod Keys
pub mod Print
use salience.Base.{
  ℕ, ◌+◌, ◌-◌, ◌/◌, ◌%◌, zero, suc, Text, codes, text_eq, List, [], ◌∷◌, ◌++◌, Bool, true, false,
  ◌&&◌, ◌||◌, Option, none, some, ltb, leb, ◌==◌, if◌then◌else◌, length,
}

-- `negsuc n` is -(n + 1).
pub data ℤ : Type 0 where
  pos : ℕ → ℤ
  negsuc : ℕ → ℤ

mutual
  -- An `integer` is one that is written in plain digits; any other number is a `fraction`, by its
  -- text.
  pub data Value : Type 0 where
    undefined null : Value
    boolean : Bool → Value
    integer : ℤ → Value
    fraction : Text → Value
    string : Text → Value
    array : Items → Value
    object : Fields → Value

  pub data Items : Type 0 where
    nil : Items
    cons : Value → Items → Items

  pub data Fields : Type 0 where
    end : Fields
    field : Text → Value → Fields → Fields

-- `object[key]`, and `undefined` where the key is missing.
unfoldable pub get_field : Text → Fields → Value
get_field key end = undefined
get_field key (field k v fs) = if text_eq k key then v else get_field key fs

-- `value?.[key]`
unfoldable pub get : Text → Value → Value
unfolding get_field
get key (object fs) = get_field key fs
get key _ = undefined

-- `Object.hasOwn(object, key)`
unfoldable pub has_own : Text → Fields → Bool
has_own key end = false
has_own key (field k v fs) = text_eq k key || has_own key fs

-- `Object.keys(object)`
unfoldable pub keys : Fields → List Text
keys end = []
keys (field k v fs) = k ∷ keys fs

-- `value === text`
unfoldable pub is_text : Text → Value → Bool
is_text t (string s) = text_eq s t
is_text t _ = false

-- `value === 1`
unfoldable pub is_one : Value → Bool
is_one (integer (pos n)) = n == 1
is_one _ = false

-- `isPlainObject`, with the fields at hand.
unfoldable pub plain_object : Value → Option Fields
plain_object (object fs) = some fs
plain_object _ = none

unfoldable pub as_text : Value → Option Text
as_text (string s) = some s
as_text _ = none

unfoldable pub items : Items → List Value
items nil = []
items (cons v vs) = v ∷ items vs

unfoldable pub as_array : Value → Option (List Value)
unfolding items
as_array (array vs) = some (items vs)
as_array _ = none

-- `Number.isSafeInteger(value) && value >= 0`
unfoldable pub as_count : Value → Option ℕ
as_count (integer (pos n)) = if leb n 9007199254740991 then some n else none
as_count _ = none

-- Object literals and arrays of texts.
abbrev pub object_of : List (Text × Value) → Fields
object_of [] = end
object_of ((k, v) ∷ kvs) = field k v (object_of kvs)

abbrev pub array_of : List Text → Items
array_of [] = nil
array_of (t ∷ ts) = cons (string t) (array_of ts)
