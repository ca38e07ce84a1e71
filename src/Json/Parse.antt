-- ===== src/Json/Parse.antt =====
-- `JSON.parse`: the tokens of a text, and a value from the tokens. The text `none` is a `SyntaxError`.
use react_native_nitro_xray.Prelude.{
  Bool, List, Option, Text, [], codes, false, if◌then◌else◌, is_some, leb, ltb, none, some, text_eq,
  true, ℕ, ◌&&◌, ◌++◌, ◌==◌, ◌||◌, ◌∷◌,
}
use react_native_nitro_xray.Json.{Json, null, bool, num, str, array, object, ◌>>=◌}
use react_native_nitro_xray.Subscription.UserInfo.{unsigned, radix_value}

pub data Token : Type 0 where
  open_array close_array open_object close_object comma colon : Token
  value : Json → Token

-- A literal, or a number: `-?(0|[1-9]\d*)(\.\d+)?([eE][+-]?\d+)?`. What the expression leaves is
-- checked here, and `Number` reads the value.
abbrev pub digit : ℕ → Bool
digit c = leb b'0' c && leb c b'9'

unfoldable pub skip_digits : Text → Text
skip_digits [] = []
skip_digits (c ∷ s) = if digit c then skip_digits s else c ∷ s

-- One digit at least.
unfoldable pub after_digits : Text → Option Text
after_digits [] = none
after_digits (c ∷ s) = if digit c then some (skip_digits s) else none

unfoldable pub after_whole : Text → Option Text
after_whole [] = none
after_whole (c ∷ s) = if c == b'0' then some s else after_digits (c ∷ s)

unfoldable pub after_fraction : Text → Option Text
after_fraction [] = some []
after_fraction (c ∷ s) = if c == b'.' then after_digits s else some (c ∷ s)

abbrev pub drop_sign : Text → Text
drop_sign [] = []
drop_sign (c ∷ s) = if c == b'-' || c == b'+' then s else c ∷ s

unfoldable pub after_exponent : Text → Option Text
after_exponent [] = some []
after_exponent (c ∷ s) = if c == b'e' || c == b'E' then after_digits (drop_sign s) else some (c ∷ s)

abbrev pub at_end : Option Text → Bool
at_end (some []) = true
at_end _ = false

unfoldable pub is_number : Text → Bool
is_number s = at_end (after_whole s >>= after_fraction >>= after_exponent)

unfoldable pub number_token : Bool → Text → Option Token
number_token negative s = if is_number s then some (value (num (unsigned negative s))) else none

unfoldable pub word_token : Text → Option Token
word_token [] = none
word_token (c ∷ s) =
    if text_eq (c ∷ s) (codes "true")
    then some (value (bool true))
    else if text_eq (c ∷ s) (codes "false")
    then some (value (bool false))
    else if text_eq (c ∷ s) (codes "null")
    then some (value null)
    else if c == b'-'
    then number_token true s
    else number_token false (c ∷ s)

-- Where the reader of a text stands: between tokens, in a word, in a string, behind a backslash, or in the
-- digits of a `\u`. A string and a word are kept with their last unit first.
pub data Mode : Type 0 where
  between : Mode
  word quoted escape : Text → Mode
  unicode : Text → Text → Mode

abbrev pub reversed : Text → Text → Text
reversed [] done = done
reversed (c ∷ s) done = reversed s (c ∷ done)

-- A token that one unit is.
unfoldable pub mark : ℕ → Option Token
mark c =
    if c == b'['
    then some open_array
    else if c == b']'
    then some close_array
    else if c == b'{'
    then some open_object
    else if c == b'}'
    then some close_object
    else if c == b','
    then some comma
    else if c == b':'
    then some colon
    else none

abbrev pub white : ℕ → Bool
white c = c == 9 || c == 10 || c == 13 || c == 32

-- The unit behind a backslash.
unfoldable pub unescaped : ℕ → Option ℕ
unescaped c =
    if c == b'"' || c == b'\\' || c == b'/'
    then some c
    else if c == b'b'
    then some 8
    else if c == b'f'
    then some 12
    else if c == b'n'
    then some 10
    else if c == b'r'
    then some 13
    else if c == b't'
    then some 9
    else none

-- A unit outside of strings: what it ends, and what it starts.
unfoldable pub start : ℕ → Option (List Token × Mode)
start c =
    if white c
    then some ([], between)
    else if c == b'"'
    then some ([], quoted [])
    else elim (mark c) [ some t ↦ some (t ∷ [], between) | none ↦ some ([], word (c ∷ [])) ]

abbrev pub ends_word : ℕ → Bool
ends_word c = white c || c == b'"' || is_some (mark c)

unfoldable pub end_word : Text → ℕ → Option (List Token × Mode)
end_word w c = word_token (reversed w []) >>= λ t. start c >>= λ next. some (t ∷ next.0, next.1)

unfoldable pub read : Mode → ℕ → Option (List Token × Mode)
read between c = start c
read (word w) c = if ends_word c then end_word w c else some ([], word (c ∷ w))
read (quoted s) c =
    if c == b'"'
    then some (value (str (reversed s [])) ∷ [], between)
    else if c == b'\\'
    then some ([], escape s)
    else if ltb c 32
    then none
    else some ([], quoted (c ∷ s))
read (escape s) c =
    if c == b'u' then some ([], unicode s []) else unescaped c >>= λ d. some ([], quoted (d ∷ s))
read (unicode s (x ∷ y ∷ z ∷ [])) c =
    radix_value 16 0 (z ∷ y ∷ x ∷ c ∷ []) >>= λ d. some ([], quoted (d ∷ s))
read (unicode s digits) c = some ([], unicode s (c ∷ digits))

unfoldable pub end_of : Mode → Option (List Token)
end_of between = some []
end_of (word w) = word_token (reversed w []) >>= λ t. some (t ∷ [])
end_of _ = none

unfoldable pub tokens : Mode → Text → Option (List Token)
tokens mode [] = end_of mode
tokens mode (c ∷ s) = read mode c >>= λ next. tokens next.1 s >>= λ more. some (next.0 ++ more)

-- `object[key] = value`: a key that is there keeps its place.
unfoldable pub put : Text → Json → List (Text × Json) → List (Text × Json)
put key j [] = (key, j) ∷ []
put key j ((k, old) ∷ fs) = if text_eq k key then (k, j) ∷ fs else (k, old) ∷ put key j fs

-- An array or an object that is not closed yet, with what it holds; an object waits for the value of a key.
pub data Frame : Type 0 where
  array_frame : List Json → Frame
  object_frame : List (Text × Json) → Text → Frame

-- What comes next: a value; a value or the end of an array; a key or the end of an object; a key; the colon
-- behind a key; or what follows a value.
pub data Want : Type 0 where
  a_value first_item : Want
  first_key a_key : List (Text × Json) → Want
  a_colon : List (Text × Json) → Text → Want
  have : Json → Want

abbrev pub State : Type 0
State = Want × List Frame

unfoldable pub want_value : List Frame → Token → Option State
want_value st (value j) = some (have j, st)
want_value st open_array = some (first_item, array_frame [] ∷ st)
want_value st open_object = some (first_key [], st)
want_value st _ = none

unfoldable pub want_key : List (Text × Json) → List Frame → Token → Option State
want_key fs st (value (str k)) = some (a_colon fs k, st)
want_key fs st _ = none

unfoldable pub have_value : Json → List Frame → Token → Option State
have_value j (array_frame js ∷ st) comma = some (a_value, array_frame (js ++ j ∷ []) ∷ st)
have_value j (array_frame js ∷ st) close_array = some (have (array (js ++ j ∷ [])), st)
have_value j (object_frame fs k ∷ st) comma = some (a_key (put k j fs), st)
have_value j (object_frame fs k ∷ st) close_object = some (have (object (put k j fs)), st)
have_value j st t = none

unfoldable pub accept : State → Token → Option State
accept (a_value, st) t = want_value st t
accept (first_item, array_frame [] ∷ st) close_array = some (have (array []), st)
accept (first_item, st) t = want_value st t
accept (first_key fs, st) close_object = some (have (object fs), st)
accept (first_key fs, st) t = want_key fs st t
accept (a_key fs, st) t = want_key fs st t
accept (a_colon fs k, st) colon = some (a_value, object_frame fs k ∷ st)
accept (a_colon fs k, st) t = none
accept (have j, st) t = have_value j st t

unfoldable pub accepts : State → List Token → Option Json
accepts (have j, []) [] = some j
accepts state [] = none
accepts state (t ∷ ts) = accept state t >>= λ next. accepts next ts

unfoldable pub parse : Text → Option Json
parse s = tokens between s >>= accepts (a_value, [])
