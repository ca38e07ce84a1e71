-- ===== src/Json.antt =====
-- The values that `JSON.stringify` writes and `JSON.parse` returns, and JavaScript's numbers. A
-- number is its exact decimal value; the rounding of a literal to the nearest double is not modelled.
pub mod Print
pub mod Parse
pub mod Strings
pub mod Words
pub mod Reading
pub mod RoundTrip
mod Tests
use Prim.Native.String.{String}
use react_native_nitro_xray.Prelude.{
  Bool, List, Option, Text, [], codes, false, if◌then◌else◌, none, some, text_eq, ℕ, ◌∷◌,
}

pub data Number : Type 0 where
  nan : Number
  infinite : (negative : Bool) → Number
  decimal : (negative : Bool) (mantissa places : ℕ) → Number

abbrev pub nat : ℕ → Number
nat n = decimal false n 0

mutual
  pub data Json : Type 0 where
    null : Json
    bool : Bool → Json
    num : Number → Json
    str : Text → Json
    arr : Items → Json
    obj : Fields → Json

  pub data Items : Type 0 where
    no_items : Items
    item : Json → Items → Items

  pub data Fields : Type 0 where
    no_fields : Fields
    field : Text → Json → Fields → Fields

abbrev pub items : List Json → Items
items [] = no_items
items (j ∷ js) = item j (items js)

abbrev pub fields : List (Text × Json) → Fields
fields [] = no_fields
fields ((k, j) ∷ fs) = field k j (fields fs)

-- `[a, b]` and `{ k: v }`.
abbrev pub array : List Json → Json
array js = arr (items js)

abbrev pub object : List (Text × Json) → Json
object fs = obj (fields fs)

abbrev pub text : String → Json
text s = str (codes s)

unfoldable pub find_field : Text → Fields → Option Json
find_field k no_fields = none
find_field k (field j v fs) = if text_eq j k then some v else find_field k fs

-- `value.key`, with a value that is no object and a missing key as `none`.
unfoldable pub get : Text → Json → Option Json
get k (obj fs) = find_field k fs
get k _ = none

unfoldable pub first : Json → Option Json
first (arr (item j js)) = some j
first _ = none

infixl 5 ◌>>=◌
abbrev pub ◌>>=◌ {ℓ κ} : {A : Type ℓ} {B : Type κ} → Option A → (A → Option B) → Option B
none >>= f = none
some a >>= f = f a
