-- ===== src/Subscription/UserInfo.antt =====
-- src/subscription/parse.ts: `parseSubscriptionUserInfo`, and `Number(text)`.
pub mod Printed
use react_native_nitro_xray.Prelude.{
  [], Bool, List, Option, Text, codes, drop, false, if◌then◌else◌, index_of, leb, length, lower,
  ltb, none, not, some, split, suc, take, text_eq, trim, true, truthy, ℕ, ◌&&◌, ◌*◌, ◌++◌, ◌+◌, ◌-◌,
  ◌==◌, ◌^◌, ◌||◌, ◌∷◌,
}
use react_native_nitro_xray.Json.{Number, nan, infinite, decimal, nat, ◌>>=◌}
use react_native_nitro_xray.Subscription.Numbers.{leading_digits, digits_value}
use react_native_nitro_xray.Subscription.Types.{SubscriptionInfo}

-- `0x`, `0o` and `0b`: the base, and the digits behind.
unfoldable pub radix_of : Text → Option (ℕ × Text)
radix_of (c ∷ d ∷ s) =
    if c == b'0'
    then if d == b'x' || d == b'X'
      then some (16, s)
      else if d == b'o' || d == b'O'
      then some (8, s)
      else if d == b'b' || d == b'B'
      then some (2, s)
      else none
    else none
radix_of _ = none

-- A letter that is no digit has a value above every base.
abbrev pub digit_value : ℕ → ℕ
digit_value c =
    if leb b'0' c && leb c b'9'
    then c - b'0'
    else if leb b'a' c && leb c b'f'
    then c - b'a' + 10
    else if leb b'A' c && leb c b'F'
    then c - b'A' + 10
    else 99

unfoldable pub radix_value : ℕ → ℕ → Text → Option ℕ
radix_value base n [] = some n
radix_value base n (c ∷ s) =
    if ltb (digit_value c) base then radix_value base (n * base + digit_value c) s else none

-- A magnitude that rounds to 2^1024 is infinite; other rounding is not modelled.
unfoldable pub bounded : Bool → ℕ → ℕ → Number
bounded negative m places =
    if leb ((2 ^ 1024 - 2 ^ 970) * 10 ^ places) m
    then infinite negative
    else decimal negative m places

unfoldable pub radix_number : ℕ → Text → Number
radix_number base [] = nan
radix_number base (c ∷ s) = elim (radix_value base 0 (c ∷ s)) [
  | none ↦ nan
  | some n ↦ bounded false n 0
]

-- Digits to the end of the text.
unfoldable pub whole_of : Text → Option ℕ
whole_of s = elim (drop (length (leading_digits s)) s) [
  | [] ↦ elim (leading_digits s) [ [] ↦ none | d ∷ ds ↦ some (digits_value 0 (d ∷ ds)) ]
  | c ∷ rest ↦ none
]

-- `m / 10 ^ places` times ten to an exponent.
unfoldable pub scaled : Bool → ℕ → ℕ → Bool → ℕ → Number
scaled negative m places true e = bounded negative m (places + e)
scaled negative m places false e =
    if leb e places
    then bounded negative m (places - e)
    else bounded negative (m * 10 ^ (e - places)) 0

abbrev or_nan : Option ℕ → (ℕ → Number) → Number
or_nan none f = nan
or_nan (some n) f = f n

unfoldable pub exponent : Bool → ℕ → ℕ → Text → Number
exponent negative m places [] = nan
exponent negative m places (c ∷ s) =
    if c == b'-'
    then or_nan (whole_of s) (scaled negative m places true)
    else if c == b'+'
    then or_nan (whole_of s) (scaled negative m places false)
    else or_nan (whole_of (c ∷ s)) (scaled negative m places false)

-- Behind the digits, of which `places` are the fraction's.
unfoldable pub behind_digits : Bool → List ℕ → ℕ → Text → Number
behind_digits negative [] places rest = nan
behind_digits negative (d ∷ ds) places [] = bounded negative (digits_value 0 (d ∷ ds)) places
behind_digits negative (d ∷ ds) places (c ∷ rest) =
    if c == b'e' || c == b'E' then exponent negative (digits_value 0 (d ∷ ds)) places rest else nan

unfoldable pub behind_whole : Bool → List ℕ → Text → Number
behind_whole negative ds [] = behind_digits negative ds 0 []
behind_whole negative ds (c ∷ rest) =
    if c == b'.'
    then (let fs = leading_digits rest in
        behind_digits negative (ds ++ fs) (length fs) (drop (length fs) rest))
    else behind_digits negative ds 0 (c ∷ rest)

unfoldable pub unsigned : Bool → Text → Number
unsigned negative s =
    if text_eq s (codes "Infinity")
    then infinite negative
    else behind_whole negative (leading_digits s) (drop (length (leading_digits s)) s)

unfoldable pub decimal_of : Text → Number
decimal_of [] = nat 0
decimal_of (c ∷ s) =
    if c == b'-'
    then unsigned true s
    else if c == b'+'
    then unsigned false s
    else unsigned false (c ∷ s)

-- A text without white space around it.
unfoldable pub number_in : Text → Number
number_in t = elim (radix_of t) [
  | some (base, digits) ↦ radix_number base digits
  | none ↦ decimal_of t
]

-- `Number(text)`
unfoldable pub to_number : Text → Number
to_number s = number_in (trim s)

-- `!Number.isFinite(value) || value < 0` is refused; -0 is not below 0.
abbrev pub accepted : Number → Bool
accepted (decimal negative m places) = not negative || m == 0
accepted _ = false

abbrev pub no_info : SubscriptionInfo
no_info = record { upload = none; download = none; total = none; expire = none }

-- `info[key] = value`, and whether the key is one of the four.
unfoldable pub set_info : Text → Number → SubscriptionInfo → Option SubscriptionInfo
set_info key value info =
    if text_eq key (codes "upload")
    then some (record info { upload = some value })
    else if text_eq key (codes "download")
    then some (record info { download = some value })
    else if text_eq key (codes "total")
    then some (record info { total = some value })
    else if text_eq key (codes "expire")
    then some (record info { expire = some value })
    else none

-- What a part of the header sets.
unfoldable pub set_part : Text → SubscriptionInfo → Option SubscriptionInfo
set_part part info = index_of b'=' part >>= λ eq_idx.
    truthy (some (trim (drop (suc eq_idx) part))) >>= λ raw_value.
    if accepted (to_number raw_value)
    then set_info (lower (trim (take eq_idx part))) (to_number raw_value) info
    else none

-- The loop: `info`, and `found`.
unfoldable pub set_parts : List Text → SubscriptionInfo → Bool → Option SubscriptionInfo
set_parts [] info found = if found then some info else none
set_parts (part ∷ parts) info found = elim (set_part part info) [
  | none ↦ set_parts parts info found
  | some info' ↦ set_parts parts info' true
]

unfoldable pub parse_subscription_user_info : Option Text → Option SubscriptionInfo
parse_subscription_user_info header = truthy header >>= λ h. set_parts (split b';' h) no_info false
