-- ===== src/Json/Print.antt =====
-- `JSON.stringify` on a value. The keys of an object come in the order of their insertion; keys that
-- look like array indices, which JavaScript moves to the front, are not treated apart.
use react_native_nitro_xray.Prelude.{
  Bool, Option, Text, [], codes, false, if◌then◌else◌, leb, ltb, none, or_default, some, true, ℕ,
  ◌%◌, ◌&&◌, ◌++◌, ◌+◌, ◌-◌, ◌/◌, ◌==◌, ◌||◌, ◌∷◌,
}
use react_native_nitro_xray.Json.{
  Json, Items, Fields, Number, null, bool, num, str, arr, obj, no_items, item, no_fields, field,
  nan, infinite, decimal,
}
use react_native_nitro_xray.Subscription.Numbers.{number_text}

unfoldable pub hex_digit : ℕ → ℕ
hex_digit d = if ltb d 10 then d + b'0' else d - 10 + b'a'

-- `\uXXXX`
unfoldable pub unicode_escape : ℕ → Text
unicode_escape c =
    b'\\'
    ∷ b'u'
    ∷ hex_digit (c / 4096 % 16)
    ∷ hex_digit (c / 256 % 16)
    ∷ hex_digit (c / 16 % 16)
    ∷ hex_digit (c % 16)
    ∷ []

-- The units that are escaped wherever they stand.
unfoldable pub escaped : ℕ → Option Text
escaped c =
    if c == b'"'
    then some (b'\\' ∷ b'"' ∷ [])
    else if c == b'\\'
    then some (b'\\' ∷ b'\\' ∷ [])
    else if c == 8
    then some (b'\\' ∷ b'b' ∷ [])
    else if c == 12
    then some (b'\\' ∷ b'f' ∷ [])
    else if c == 10
    then some (b'\\' ∷ b'n' ∷ [])
    else if c == 13
    then some (b'\\' ∷ b'r' ∷ [])
    else if c == 9
    then some (b'\\' ∷ b't' ∷ [])
    else if ltb c 32
    then some (unicode_escape c)
    else none

abbrev pub is_high : ℕ → Bool
is_high c = leb 0xd800 c && leb c 0xdbff

abbrev pub is_low : ℕ → Bool
is_low c = leb 0xdc00 c && leb c 0xdfff

-- A unit that is no half of a surrogate pair.
abbrev pub single : ℕ → Text
single c = if is_high c || is_low c then unicode_escape c else or_default (escaped c) (c ∷ [])

-- The units between the quotes; a surrogate without its partner is escaped.
unfoldable pub quoted : Text → Text
quoted [] = []
quoted (c ∷ []) = single c
quoted (c ∷ d ∷ s) = elim (is_high c && is_low d) [
  | true ↦ c ∷ d ∷ quoted s
  | false ↦ single c ++ quoted (d ∷ s)
]

unfoldable pub string_text : Text → Text
string_text s = b'"' ∷ quoted s ++ b'"' ∷ []

-- `null` for `NaN` and the infinities.
abbrev pub number_json : Number → Text
number_json nan = codes "null"
number_json (infinite negative) = codes "null"
number_json (decimal negative m places) = number_text (decimal negative m places)

abbrev pub comma : Bool → Text
comma true = []
comma false = b',' ∷ []

unfoldable mutual
  pub stringify : Json → Text
  stringify null = codes "null"
  stringify (bool true) = codes "true"
  stringify (bool false) = codes "false"
  stringify (num n) = number_json n
  stringify (str s) = string_text s
  stringify (arr js) = b'[' ∷ stringify_items true js ++ b']' ∷ []
  stringify (obj fs) = b'{' ∷ stringify_fields true fs ++ b'}' ∷ []

  pub stringify_items : Bool → Items → Text
  stringify_items is_first no_items = []
  stringify_items is_first (item j js) = comma is_first ++ stringify j ++ stringify_items false js

  pub stringify_fields : Bool → Fields → Text
  stringify_fields is_first no_fields = []
  stringify_fields is_first (field k j fs) =
      comma is_first ++ string_text k ++ b':' ∷ stringify j ++ stringify_fields false fs
