-- ===== src/Json/Reading/Building.antt =====
-- The value that `JSON.parse` builds from the tokens of a value.
use react_native_nitro_xray.Prelude.{
  All, All-append, List, Text, [], ap, append_assoc, false, refl, text_eq, ◌++◌, ◌∙◌, ◌∷◌, ◌≡◌,
}
use react_native_nitro_xray.Json.{
  Json, Items, Fields, null, bool, num, str, arr, obj, no_items, item, no_fields, field, items,
  fields, array, object,
}
use react_native_nitro_xray.Json.Parse.{
  Token, value, open_array, close_array, open_object, close_object, comma, colon, put, Frame,
  array_frame, object_frame, a_value, first_item, first_key, have, want_value, want_key, have_value,
  accept, accepts,
}
use react_native_nitro_xray.Json.Reading.{
  value_tokens, item_tokens, field_tokens, Absent, IsPlain, AreItemsPlain, AreFieldsPlain,
}

-- The lists of items and of fields.
abbrev item_list : Items → List Json
item_list no_items = []
item_list (item j js) = j ∷ item_list js

abbrev field_list : Fields → List (Text × Json)
field_list no_fields = []
field_list (field k j fs) = (k, j) ∷ field_list fs

items-item_list : (js : Items) → items (item_list js) ≡ js
items-item_list no_items = refl
items-item_list (item j js) = ap (item j) (items-item_list js)

fields-field_list : (fs : Fields) → fields (field_list fs) ≡ fs
fields-field_list no_fields = refl
fields-field_list (field k j fs) = ap (field k j) (fields-field_list fs)

-- No field of the list has the key.
abbrev Fresh : Text → List (Text × Json) → Type 0
Fresh k = All (λ f. text_eq f.0 k ≡ false)

put-Fresh :
    (k : Text) (j : Json) (fs : List (Text × Json)) → Fresh k fs → put k j fs ≡ fs ++ (k, j) ∷ []
unfolding put
put-Fresh k j [] h = refl
put-Fresh k j ((l, old) ∷ fs) (h, hs) = rw h (ap (◌∷◌ (l, old)) (put-Fresh k j fs hs))

-- The keys of the fields do not stand in the list.
abbrev AreFresh : Fields → List (Text × Json) → Type 0
AreFresh no_fields done = Unit
AreFresh (field k j fs) done = Fresh k done × AreFresh fs done

AreFresh-nil : (fs : Fields) → AreFresh fs []
AreFresh-nil no_fields = tt
AreFresh-nil (field k j fs) = (tt, AreFresh-nil fs)

AreFresh-append :
    (fs : Fields) (done : List (Text × Json)) (k : Text) (j : Json)
    → AreFresh fs done
    → Absent k fs
    → AreFresh fs (done ++ (k, j) ∷ [])
AreFresh-append no_fields done k j h a = tt
AreFresh-append (field l i fs) done k j (h, hs) (a, as') = (
  All-append (λ f. text_eq f.0 l ≡ false) done ((k, j) ∷ []) h (a, tt),
  AreFresh-append fs done k j hs as',
)

-- The first item of an array.
first_item-value_tokens :
    (j : Json) (st : List Frame) (ts : List Token)
    → accepts (first_item, array_frame [] ∷ st) (value_tokens j ++ ts)
      ≡ accepts (a_value, array_frame [] ∷ st) (value_tokens j ++ ts)
unfolding value_tokens accepts accept
first_item-value_tokens null st ts = refl
first_item-value_tokens (bool b) st ts = refl
first_item-value_tokens (num n) st ts = refl
first_item-value_tokens (str s) st ts = refl
first_item-value_tokens (arr js) st ts = refl
first_item-value_tokens (obj fs) st ts = refl

-- One step of the reader.
open-array :
    (st : List Frame) (ts : List Token)
    → accepts (a_value, st) (open_array ∷ ts) ≡ accepts (first_item, array_frame [] ∷ st) ts
unfolding accepts accept want_value
open-array st ts = refl

open-object :
    (st : List Frame) (ts : List Token)
    → accepts (a_value, st) (open_object ∷ ts) ≡ accepts (first_key [], st) ts
unfolding accepts accept want_value
open-object st ts = refl

empty-array :
    (st : List Frame) (ts : List Token)
    → accepts (first_item, array_frame [] ∷ st) (close_array ∷ ts)
      ≡ accepts (have (array []), st) ts
unfolding accepts accept
empty-array st ts = refl

empty-object :
    (st : List Frame) (ts : List Token)
    → accepts (first_key [], st) (close_object ∷ ts) ≡ accepts (have (object []), st) ts
unfolding accepts accept
empty-object st ts = refl

next-item :
    (j : Json) (js : List Json) (st : List Frame) (ts : List Token)
    → accepts (have j, array_frame js ∷ st) (comma ∷ ts)
      ≡ accepts (a_value, array_frame (js ++ j ∷ []) ∷ st) ts
unfolding accepts accept have_value
next-item j js st ts = refl

last-item :
    (j : Json) (js : List Json) (st : List Frame) (ts : List Token)
    → accepts (have j, array_frame js ∷ st) (close_array ∷ ts)
      ≡ accepts (have (array (js ++ j ∷ [])), st) ts
unfolding accepts accept have_value
last-item j js st ts = refl

first-key :
    (k : Text) (st : List Frame) (ts : List Token)
    → accepts (first_key [], st) (value (str k) ∷ colon ∷ ts)
      ≡ accepts (a_value, object_frame [] k ∷ st) ts
unfolding accepts accept want_key
first-key k st ts = refl

next-key :
    (j : Json) (fs : List (Text × Json)) (k l : Text) (st : List Frame) (ts : List Token)
    → accepts (have j, object_frame fs k ∷ st) (comma ∷ value (str l) ∷ colon ∷ ts)
      ≡ accepts (a_value, object_frame (put k j fs) l ∷ st) ts
unfolding accepts accept have_value want_key
next-key j fs k l st ts = refl

last-field :
    (j : Json) (fs : List (Text × Json)) (k : Text) (st : List Frame) (ts : List Token)
    → accepts (have j, object_frame fs k ∷ st) (close_object ∷ ts)
      ≡ accepts (have (object (put k j fs)), st) ts
unfolding accepts accept have_value
last-field j fs k st ts = refl

value-once :
    (j : Json) (st : List Frame) (ts : List Token)
    → accepts (a_value, st) (value j ∷ ts) ≡ accepts (have j, st) ts
unfolding accepts accept want_value
value-once j st ts = refl

mutual
  unfolding value_tokens item_tokens field_tokens IsPlain AreItemsPlain AreFieldsPlain

  -- The tokens of a value are read as that value.
  pub accepts-value_tokens :
      (j : Json) (st : List Frame) (ts : List Token)
      → IsPlain j
      → accepts (a_value, st) (value_tokens j ++ ts) ≡ accepts (have j, st) ts
  accepts-value_tokens null st ts h = value-once null st ts
  accepts-value_tokens (bool b) st ts h = value-once (bool b) st ts
  accepts-value_tokens (num n) st ts h = value-once (num n) st ts
  accepts-value_tokens (str s) st ts h = value-once (str s) st ts
  accepts-value_tokens (arr no_items) st ts h = open-array st (close_array ∷ ts) ∙ empty-array st ts
  accepts-value_tokens (arr (item j js)) st ts (h, hs) =
      ap (λ us. accepts (a_value, st) (open_array ∷ us))
        (append_assoc (value_tokens j ++ item_tokens false js) (close_array ∷ []) ts
          ∙ append_assoc (value_tokens j) (item_tokens false js) (close_array ∷ ts))
      ∙ (open-array st _
          ∙ (first_item-value_tokens j st (item_tokens false js ++ close_array ∷ ts)
              ∙ (accepts-value_tokens j (array_frame [] ∷ st)
                    (item_tokens false js ++ close_array ∷ ts) h
                  ∙ (accepts-item_tokens j [] js st ts hs
                      ∙ ap (λ is. accepts (have (arr (item j is)), st) ts) (items-item_list js)))))
  accepts-value_tokens (obj no_fields) st ts h =
      open-object st (close_object ∷ ts) ∙ empty-object st ts
  accepts-value_tokens (obj (field k j fs)) st ts (h, (a, hs)) =
      ap (λ us. accepts (a_value, st) (open_object ∷ value (str k) ∷ colon ∷ us))
        (append_assoc (value_tokens j ++ field_tokens false fs) (close_object ∷ []) ts
          ∙ append_assoc (value_tokens j) (field_tokens false fs) (close_object ∷ ts))
      ∙ (open-object st _
          ∙ (first-key k st (value_tokens j ++ (field_tokens false fs ++ close_object ∷ ts))
              ∙ (accepts-value_tokens j (object_frame [] k ∷ st)
                    (field_tokens false fs ++ close_object ∷ ts) h
                  ∙ (accepts-field_tokens k j [] fs st ts hs a tt (AreFresh-nil fs)
                      ∙ ap (λ gs. accepts (have (obj (field k j gs)), st) ts)
                          (fields-field_list fs)))))

  accepts-item_tokens :
      (j : Json) (done : List Json) (js : Items) (st : List Frame) (ts : List Token)
      → AreItemsPlain js
      → accepts (have j, array_frame done ∷ st) (item_tokens false js ++ close_array ∷ ts)
        ≡ accepts (have (array (done ++ j ∷ item_list js)), st) ts
  accepts-item_tokens j done no_items st ts h = last-item j done st ts
  accepts-item_tokens j done (item i js) st ts (h, hs) =
      next-item j done st _
      ∙ (ap (accepts (a_value, array_frame (done ++ j ∷ []) ∷ st))
            (append_assoc (value_tokens i) (item_tokens false js) (close_array ∷ ts))
          ∙ (accepts-value_tokens i (array_frame (done ++ j ∷ []) ∷ st)
                (item_tokens false js ++ close_array ∷ ts) h
              ∙ (accepts-item_tokens i (done ++ j ∷ []) js st ts hs
                  ∙ ap (λ is. accepts (have (array is), st) ts)
                      (append_assoc done (j ∷ []) (i ∷ item_list js)))))

  accepts-field_tokens :
      (k : Text) (j : Json) (done : List (Text × Json)) (fs : Fields) (st : List Frame)
      (ts : List Token)
      → AreFieldsPlain fs
      → Absent k fs
      → Fresh k done
      → AreFresh fs done
      → accepts (have j, object_frame done k ∷ st) (field_tokens false fs ++ close_object ∷ ts)
        ≡ accepts (have (object (done ++ (k, j) ∷ field_list fs)), st) ts
  accepts-field_tokens k j done no_fields st ts h a f fr =
      last-field j done k st ts
      ∙ ap (λ gs. accepts (have (object gs), st) ts) (put-Fresh k j done f)
  accepts-field_tokens k j done (field l i fs) st ts (h, (a', hs)) (ne, a) f (f', fr) =
      next-key j done k l st _
      ∙ (ap
            (λ gs.
              accepts (a_value, object_frame gs l ∷ st)
                (value_tokens i ++ field_tokens false fs ++ close_object ∷ ts))
            (put-Fresh k j done f)
          ∙ (ap (accepts (a_value, object_frame (done ++ (k, j) ∷ []) l ∷ st))
                (append_assoc (value_tokens i) (field_tokens false fs) (close_object ∷ ts))
              ∙ (accepts-value_tokens i (object_frame (done ++ (k, j) ∷ []) l ∷ st)
                    (field_tokens false fs ++ close_object ∷ ts) h
                  ∙ (accepts-field_tokens l i (done ++ (k, j) ∷ []) fs st ts hs a'
                        (All-append (λ g. text_eq g.0 l ≡ false) done ((k, j) ∷ []) f' (ne, tt))
                        (AreFresh-append fs done k j fr a)
                      ∙ ap (λ gs. accepts (have (object gs), st) ts)
                          (append_assoc done ((k, j) ∷ []) ((l, i) ∷ field_list fs))))))
