-- ===== src/Json/Print.antt =====
-- The text that `JSON.stringify` writes, and its length in UTF-8.
pub mod Digits
use salience.Base.{
  ℕ, ◌+◌, ◌-◌, ◌/◌, ◌%◌, zero, suc, Bool, Text, codes, [], ◌∷◌, ◌++◌, true, false, ◌&&◌, ◌||◌, ltb,
  leb, ◌==◌, if◌then◌else◌,
}
use salience.Json.{
  pos, negsuc, Value, undefined, null, boolean, integer, fraction, string, array, object, Items,
  nil, cons, Fields, end, field,
}

-- The decimal digits of `n`, on a fuel above `n`.
unfoldable pub decimal_onto : ℕ → ℕ → Text → Text
decimal_onto zero n rest = rest
decimal_onto (suc fuel) n rest =
    let more = decimal_onto fuel (n / 10) ((b'0' + n % 10) ∷ rest) in
    if ltb n 10 then (b'0' + n) ∷ rest else more

unfoldable pub decimal : ℕ → Text
unfolding decimal_onto
decimal n = decimal_onto (suc n) n []

hex_digit : ℕ → ℕ
hex_digit n = if ltb n 10 then b'0' + n else b'a' + n - 10

unfoldable pub unicode_escape : ℕ → Text
unfolding hex_digit
unicode_escape c =
    codes "\\u"
    ++ (hex_digit (c / 4096 % 16)
        ∷ hex_digit (c / 256 % 16)
        ∷ hex_digit (c / 16 % 16)
        ∷ hex_digit (c % 16)
        ∷ [])

-- A code unit inside a string literal.
unfoldable pub escape : ℕ → Text
unfolding unicode_escape
escape c =
    if c == b'"' || c == 92
    then 92 ∷ c ∷ []
    else if c == 8
    then codes "\\b"
    else if c == 9
    then codes "\\t"
    else if c == 10
    then codes "\\n"
    else if c == 12
    then codes "\\f"
    else if c == 13
    then codes "\\r"
    else if ltb c 32
    then unicode_escape c
    else c ∷ []

abbrev is_high : ℕ → Bool
is_high c = leb 0xd800 c && ltb c 0xdc00

abbrev is_low : ℕ → Bool
is_low c = leb 0xdc00 c && ltb c 0xe000

-- A pair of surrogates stays as it is, a lone one is escaped.
unfoldable pub quoted : Text → Text
unfolding escape
quoted [] = b'"' ∷ []
quoted (c ∷ []) = (if is_high c || is_low c then unicode_escape c else escape c) ++ (b'"' ∷ [])
quoted (c ∷ d ∷ t) =
    let paired = c ∷ d ∷ quoted t in
    let rest = quoted (d ∷ t) in
    let alone = (if is_high c || is_low c then unicode_escape c else escape c) ++ rest in
    if is_high c && is_low d then paired else alone

abbrev quote : Text → Text
quote t = b'"' ∷ quoted t

abbrev separated : Bool → Text → Text
separated first t = if first then t else b',' ∷ t

unfoldable mutual
  pub stringify : Value → Text
  stringify undefined = codes "null"
  stringify null = codes "null"
  stringify (boolean true) = codes "true"
  stringify (boolean false) = codes "false"
  stringify (integer (pos n)) = decimal n
  stringify (integer (negsuc n)) = b'-' ∷ decimal (suc n)
  stringify (fraction t) = t
  stringify (string t) = quote t
  stringify (array vs) = b'[' ∷ stringify_items true vs
  stringify (object fs) = b'{' ∷ stringify_fields true fs

  stringify_items : Bool → Items → Text
  stringify_items first nil = b']' ∷ []
  stringify_items first (cons v vs) = separated first (stringify v ++ stringify_items false vs)

  -- A field that is `undefined` is left out.
  stringify_fields : Bool → Fields → Text
  stringify_fields first end = b'}' ∷ []
  stringify_fields first (field k undefined fs) = stringify_fields first fs
  stringify_fields first (field k v fs) =
      separated first (quote k ++ (b':' ∷ stringify v ++ stringify_fields false fs))

-- `String(value)`, which template literals and the tests of regular expressions make of a value.
unfoldable mutual
  pub to_text : Value → Text
  to_text undefined = codes "undefined"
  to_text null = codes "null"
  to_text (boolean true) = codes "true"
  to_text (boolean false) = codes "false"
  to_text (integer (pos n)) = decimal n
  to_text (integer (negsuc n)) = b'-' ∷ decimal (suc n)
  to_text (fraction t) = t
  to_text (string t) = t
  to_text (array vs) = items_text true vs
  to_text (object fs) = codes "[object Object]"

  items_text : Bool → Items → Text
  items_text first nil = []
  items_text first (cons undefined vs) = separated first (items_text false vs)
  items_text first (cons null vs) = separated first (items_text false vs)
  items_text first (cons v vs) = separated first (to_text v ++ items_text false vs)

-- `Buffer.byteLength` of a text without lone surrogates: each of a pair counts two.
unfoldable pub utf8_length : Text → ℕ
utf8_length [] = 0
utf8_length (c ∷ cs) =
    (if ltb c 0x80 then 1 else if ltb c 0x800 || is_high c || is_low c then 2 else 3)
    + utf8_length cs

-- To run `stringify` in a test, unfold this.
unfoldable pub stringify_run : Value → Text
unfolding stringify decimal quoted
stringify_run = stringify
