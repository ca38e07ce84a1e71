-- ===== src/Json/Reading.antt =====
-- The tokens of a value, and the value that `JSON.parse` builds from them.
pub mod Lexing
pub mod Building
use react_native_nitro_xray.Prelude.{[], Bool, List, Text, false, text_eq, true, ◌++◌, ◌∷◌, ◌≡◌}
use react_native_nitro_xray.Json.{
  Json, Items, Fields, num, str, arr, obj, no_items, item, no_fields, field,
}
use react_native_nitro_xray.Json.Parse.{
  Token, value, open_array, close_array, open_object, close_object, comma, colon,
}
use react_native_nitro_xray.Json.Words.Numbers.{IsPlainNumber}

abbrev pub separator : Bool → List Token
separator true = []
separator false = comma ∷ []

unfoldable mutual
  pub value_tokens : Json → List Token
  value_tokens (arr js) = open_array ∷ (item_tokens true js ++ close_array ∷ [])
  value_tokens (obj fs) = open_object ∷ (field_tokens true fs ++ close_object ∷ [])
  value_tokens j = value j ∷ []

  pub item_tokens : Bool → Items → List Token
  item_tokens is_first no_items = []
  item_tokens is_first (item j js) = separator is_first ++ value_tokens j ++ item_tokens false js

  pub field_tokens : Bool → Fields → List Token
  field_tokens is_first no_fields = []
  field_tokens is_first (field k j fs) =
      separator is_first
      ++ (value (str k) ∷ [])
      ++ (colon ∷ value_tokens j)
      ++ field_tokens false fs

-- A key that does not stand among the fields.
abbrev pub Absent : Text → Fields → Type 0
Absent k no_fields = Unit
Absent k (field l j fs) = (text_eq k l ≡ false) × Absent k fs

-- A value whose numbers are printed without an exponent, in their shortest form, and whose objects have
-- every key once.
unfoldable mutual
  pub IsPlain : Json → Type 0
  IsPlain (num n) = IsPlainNumber n
  IsPlain (arr js) = AreItemsPlain js
  IsPlain (obj fs) = AreFieldsPlain fs
  IsPlain j = Unit

  pub AreItemsPlain : Items → Type 0
  AreItemsPlain no_items = Unit
  AreItemsPlain (item j js) = IsPlain j × AreItemsPlain js

  pub AreFieldsPlain : Fields → Type 0
  AreFieldsPlain no_fields = Unit
  AreFieldsPlain (field k j fs) = IsPlain j × (Absent k fs × AreFieldsPlain fs)
