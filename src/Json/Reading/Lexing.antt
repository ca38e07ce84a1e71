-- ===== src/Json/Reading/Lexing.antt =====
-- A printed value is read as the tokens of the value.
use react_native_nitro_xray.Prelude.{
  Bool, List, Text, [], ap, append_assoc, codes, false, refl, some, sym, text_eq, true, ℕ, ◌++◌,
  ◌∙◌, ◌∷◌, ◌≡◌,
}
use react_native_nitro_xray.Json.{
  Json, Items, Fields, null, bool, num, str, arr, obj, no_items, item, no_fields, field,
}
use react_native_nitro_xray.Json.Print as Print
use react_native_nitro_xray.Json.Print.{
  string_text, number_json, stringify, stringify_items, stringify_fields,
}
use react_native_nitro_xray.Json.Parse as Parse
use react_native_nitro_xray.Json.Parse.{
  Token, value, open_array, close_array, open_object, close_object, colon, between, read, start,
  mark, tokens, word_token,
}
use react_native_nitro_xray.Json.Strings.{before, before-append, before-nil, tokens-cons}
use react_native_nitro_xray.Json.Strings.Quoted.{tokens-string_text}
use react_native_nitro_xray.Json.Words.{Ends, tokens-word}
use react_native_nitro_xray.Json.Words.Printed.{tokens-number_json}
use react_native_nitro_xray.Json.Reading.{
  separator, value_tokens, item_tokens, field_tokens, IsPlain, AreItemsPlain, AreFieldsPlain,
}

-- The text is read as the tokens, before what follows.
abbrev Lexes : Text → List Token → Text → Type 0
Lexes s ts rest = tokens between (s ++ rest) ≡ before ts (tokens between rest)

both :
    (a b rest : Text) (ts us : List Token)
    → Lexes a ts (b ++ rest)
    → Lexes b us rest
    → Lexes (a ++ b) (ts ++ us) rest
both a b rest ts us f g =
    ap (tokens between) (append_assoc a b rest)
    ∙ (f ∙ (ap (before ts) g ∙ sym (before-append ts us (tokens between rest))))

unit :
    (c : ℕ) (t : Token) (rest : Text)
    → read between c ≡ some (t ∷ [], between)
    → Lexes (c ∷ []) (t ∷ []) rest
unit c t rest h = tokens-cons between between c (t ∷ []) rest h

colon-Lexes : (rest : Text) → Lexes (b':' ∷ []) (colon ∷ []) rest
unfolding read start mark
colon-Lexes rest = unit b':' colon rest refl

separator-Lexes :
    (is_first : Bool) (rest : Text) → Lexes (Print.comma is_first) (separator is_first) rest
unfolding read start mark
separator-Lexes true rest = sym (before-nil (tokens between rest))
separator-Lexes false rest = unit b',' Parse.comma rest refl

brackets-Lexes :
    (o c : ℕ) (t u : Token) (s : Text) (ts : List Token) (rest : Text)
    → read between o ≡ some (t ∷ [], between)
    → read between c ≡ some (u ∷ [], between)
    → Lexes s ts (c ∷ rest)
    → Lexes (o ∷ (s ++ c ∷ [])) (t ∷ (ts ++ u ∷ [])) rest
brackets-Lexes o c t u s ts rest h k f =
    both (o ∷ []) (s ++ c ∷ []) rest (t ∷ []) (ts ++ u ∷ []) (unit o t _ h)
      (both s (c ∷ []) rest ts (u ∷ []) f (unit c u rest k))

null-Lexes : (rest : Text) → Ends rest → Lexes (codes "null") (value null ∷ []) rest
unfolding word_token text_eq mark
null-Lexes rest h =
    tokens-word (codes "null") rest (value null) (refl, (refl, (refl, (refl, tt)))) h refl

bool-Lexes :
    (b : Bool) (rest : Text) → Ends rest → Lexes (stringify (bool b)) (value (bool b) ∷ []) rest
unfolding stringify word_token text_eq mark
bool-Lexes true rest h =
    tokens-word (codes "true") rest (value (bool true)) (refl, (refl, (refl, (refl, tt)))) h refl
bool-Lexes false rest h =
    tokens-word (codes "false") rest (value (bool false)) (refl, (refl, (refl, (refl, (refl, tt)))))
      h refl

-- What follows an item or a field.
items-Ends : (js : Items) (rest : Text) → Ends rest → Ends (stringify_items false js ++ rest)
unfolding stringify_items mark
items-Ends no_items rest h = h
items-Ends (item j js) rest h = refl

fields-Ends : (fs : Fields) (rest : Text) → Ends rest → Ends (stringify_fields false fs ++ rest)
unfolding stringify_fields mark
fields-Ends no_fields rest h = h
fields-Ends (field k j fs) rest h = refl

arr-Lexes :
    (s : Text) (ts : List Token) (rest : Text)
    → Lexes s ts (b']' ∷ rest)
    → Lexes (b'[' ∷ (s ++ b']' ∷ [])) (open_array ∷ (ts ++ close_array ∷ [])) rest
unfolding read start mark
arr-Lexes s ts rest f = brackets-Lexes b'[' b']' open_array close_array s ts rest refl refl f

obj-Lexes :
    (s : Text) (ts : List Token) (rest : Text)
    → Lexes s ts (b'}' ∷ rest)
    → Lexes (b'{' ∷ (s ++ b'}' ∷ [])) (open_object ∷ (ts ++ close_object ∷ [])) rest
unfolding read start mark
obj-Lexes s ts rest f = brackets-Lexes b'{' b'}' open_object close_object s ts rest refl refl f

close-Ends : (rest : Text) → Ends (b']' ∷ rest) × Ends (b'}' ∷ rest)
unfolding mark
close-Ends rest = (refl, refl)

mutual
  unfolding stringify stringify_items stringify_fields value_tokens item_tokens field_tokens IsPlain
      AreItemsPlain AreFieldsPlain

  pub stringify-Lexes :
      (j : Json) (rest : Text) → IsPlain j → Ends rest → Lexes (stringify j) (value_tokens j) rest
  stringify-Lexes null rest h e = null-Lexes rest e
  stringify-Lexes (bool true) rest h e = bool-Lexes true rest e
  stringify-Lexes (bool false) rest h e = bool-Lexes false rest e
  stringify-Lexes (num n) rest h e = tokens-number_json n rest h e
  stringify-Lexes (str s) rest h e = tokens-string_text s rest
  stringify-Lexes (arr js) rest h e =
      arr-Lexes (stringify_items true js) (item_tokens true js) rest
        (items-Lexes true js (b']' ∷ rest) h (close-Ends rest).0)
  stringify-Lexes (obj fs) rest h e =
      obj-Lexes (stringify_fields true fs) (field_tokens true fs) rest
        (fields-Lexes true fs (b'}' ∷ rest) h (close-Ends rest).1)

  items-Lexes :
      (is_first : Bool) (js : Items) (rest : Text)
      → AreItemsPlain js
      → Ends rest
      → Lexes (stringify_items is_first js) (item_tokens is_first js) rest
  items-Lexes is_first no_items rest h e = sym (before-nil (tokens between rest))
  items-Lexes is_first (item j js) rest (h, hs) e =
      both (Print.comma is_first ++ stringify j) (stringify_items false js) rest
        (separator is_first ++ value_tokens j) (item_tokens false js)
        (both (Print.comma is_first) (stringify j) (stringify_items false js ++ rest)
          (separator is_first) (value_tokens j) (separator-Lexes is_first _)
          (stringify-Lexes j _ h (items-Ends js rest e)))
        (items-Lexes false js rest hs e)

  fields-Lexes :
      (is_first : Bool) (fs : Fields) (rest : Text)
      → AreFieldsPlain fs
      → Ends rest
      → Lexes (stringify_fields is_first fs) (field_tokens is_first fs) rest
  fields-Lexes is_first no_fields rest h e = sym (before-nil (tokens between rest))
  fields-Lexes is_first (field k j fs) rest (h, (a, hs)) e =
      let more = stringify_fields false fs ++ rest in
      let shown = b':' ∷ stringify j in
      let key_tokens = separator is_first ++ (value (str k) ∷ []) in
      both (Print.comma is_first ++ string_text k ++ shown) (stringify_fields false fs) rest
        (key_tokens ++ (colon ∷ value_tokens j)) (field_tokens false fs)
        (both (Print.comma is_first ++ string_text k) shown more key_tokens (colon ∷ value_tokens j)
          (both (Print.comma is_first) (string_text k) (shown ++ more) (separator is_first)
            (value (str k) ∷ []) (separator-Lexes is_first _) (tokens-string_text k _))
          (both (b':' ∷ []) (stringify j) more (colon ∷ []) (value_tokens j) (colon-Lexes _)
            (stringify-Lexes j more h (fields-Ends fs rest e))))
        (fields-Lexes false fs rest hs e)
