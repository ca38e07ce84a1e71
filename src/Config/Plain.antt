-- ===== src/Config/Plain.antt =====
-- The keys and the numbers of the objects that src/client.ts stores and src/config/build.ts builds, as
-- `JSON.stringify` prints them.
use react_native_nitro_xray.Prelude.{
  [], Bool, List, Option, Text, false, none, not, refl, some, text_eq, true, ◌&&◌, ◌∷◌, ◌≡◌,
}
use react_native_nitro_xray.Json.{Json, Number, Fields, num, str, obj, no_fields, field}
use react_native_nitro_xray.Json.Words.Numbers.{IsPlainNumber}
use react_native_nitro_xray.Json.Reading.{Absent, IsPlain, AreFieldsPlain}
use react_native_nitro_xray.Config.Settings.{Property, opt_str, omit_undefined}

-- The fields have distinct keys and plain values.
abbrev pub absent : Text → Fields → Bool
absent k no_fields = true
absent k (field l j fs) = not (text_eq k l) && absent k fs

abbrev pub distinct : Fields → Bool
distinct no_fields = true
distinct (field k j fs) = absent k fs && distinct fs

abbrev pub HasPlainValues : Fields → Type 0
HasPlainValues no_fields = Unit
HasPlainValues (field k j fs) = IsPlain j × HasPlainValues fs

pub and_parts : (a b : Bool) → a && b ≡ true → (a ≡ true) × (b ≡ true)
and_parts true true h = (refl, refl)
and_parts true false h = cc
and_parts false b h = cc

pub not-true : (b : Bool) → not b ≡ true → b ≡ false
not-true true h = cc
not-true false h = refl

absent-Absent : (k : Text) (fs : Fields) → absent k fs ≡ true → Absent k fs
absent-Absent k no_fields h = tt
absent-Absent k (field l j fs) h =
    let (ne, rest) = and_parts (not (text_eq k l)) (absent k fs) h in
    (not-true (text_eq k l) ne, absent-Absent k fs rest)

fields-Plain : (fs : Fields) → distinct fs ≡ true → HasPlainValues fs → AreFieldsPlain fs
unfolding AreFieldsPlain
fields-Plain no_fields d h = tt
fields-Plain (field k j fs) d (h, hs) =
    let (first, rest) = and_parts (absent k fs) (distinct fs) d in
    (h, (absent-Absent k fs first, fields-Plain fs rest hs))

pub obj-Plain : (fs : Fields) → distinct fs ≡ true → HasPlainValues fs → IsPlain (obj fs)
unfolding IsPlain
obj-Plain fs d h = fields-Plain fs d h

-- Properties of which some are left out.
abbrev pub absent_property : Text → List Property → Bool
absent_property k [] = true
absent_property k ((l, o) ∷ ps) = not (text_eq k l) && absent_property k ps

abbrev pub distinct_properties : List Property → Bool
distinct_properties [] = true
distinct_properties ((k, o) ∷ ps) = absent_property k ps && distinct_properties ps

abbrev pub IsPlainOption : Option Json → Type 0
IsPlainOption none = Unit
IsPlainOption (some j) = IsPlain j

abbrev pub HasPlainOptions : List Property → Type 0
HasPlainOptions [] = Unit
HasPlainOptions ((k, o) ∷ ps) = IsPlainOption o × HasPlainOptions ps

omitted-Absent :
    (k : Text) (ps : List Property) → absent_property k ps ≡ true → Absent k (omit_undefined ps)
unfolding omit_undefined
omitted-Absent k [] h = tt
omitted-Absent k ((l, none) ∷ ps) h =
    omitted-Absent k ps (and_parts (not (text_eq k l)) (absent_property k ps) h).1
omitted-Absent k ((l, some v) ∷ ps) h =
    let (ne, rest) = and_parts (not (text_eq k l)) (absent_property k ps) h in
    (not-true (text_eq k l) ne, omitted-Absent k ps rest)

omitted-fields :
    (ps : List Property)
    → distinct_properties ps ≡ true
    → HasPlainOptions ps
    → AreFieldsPlain (omit_undefined ps)
unfolding omit_undefined AreFieldsPlain
omitted-fields [] d h = tt
omitted-fields ((k, none) ∷ ps) d (h, hs) =
    omitted-fields ps (and_parts (absent_property k ps) (distinct_properties ps) d).1 hs
omitted-fields ((k, some v) ∷ ps) d (h, hs) =
    let (first, rest) = and_parts (absent_property k ps) (distinct_properties ps) d in
    (h, (omitted-Absent k ps first, omitted-fields ps rest hs))

pub omitted-Plain :
    (ps : List Property)
    → distinct_properties ps ≡ true
    → HasPlainOptions ps
    → IsPlain (obj (omit_undefined ps))
unfolding IsPlain
omitted-Plain ps d h = omitted-fields ps d h

pub str-Plain : (t : Text) → IsPlain (str t)
unfolding IsPlain
str-Plain t = tt

pub num-Plain : (n : Number) → IsPlainNumber n → IsPlain (num n)
unfolding IsPlain
num-Plain n h = h

pub opt_str-Plain : (o : Option Text) → IsPlainOption (opt_str o)
opt_str-Plain none = tt
opt_str-Plain (some t) = str-Plain t

-- The rules for a value that is written out.
pub ruleset plain = (obj-Plain, omitted-Plain, str-Plain, num-Plain, opt_str-Plain)
