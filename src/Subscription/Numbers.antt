-- ===== src/Subscription/Numbers.antt =====
-- `parseInt(value, 10)`, the port of a link, and a number in a template literal.
pub mod Digits
pub mod Written
use react_native_nitro_xray.Prelude.{
  ◌==◌, ◌++◌, ◌^◌, codes, Bool, List, Text, [], false, if◌then◌else◌, leb, ltb, suc, trim_start,
  true, zero, ℕ, ◌%◌, ◌&&◌, ◌*◌, ◌+◌, ◌-◌, ◌/◌, ◌∷◌, not,
}
use react_native_nitro_xray.Json.{Number, nan, infinite, decimal, nat}

-- The digits that a text starts with.
unfoldable pub leading_digits : Text → List ℕ
leading_digits [] = []
leading_digits (c ∷ s) = if leb b'0' c && leb c b'9' then (c - b'0') ∷ leading_digits s else []

unfoldable pub digits_value : ℕ → List ℕ → ℕ
digits_value n [] = n
digits_value n (d ∷ ds) = digits_value (n * 10 + d) ds

-- No digits are `NaN`; a value that rounds to 2^1024 is infinite. The rounding of a value above 2^53 is
-- not modelled.
unfoldable pub number_of : Bool → List ℕ → Number
number_of negative [] = nan
number_of negative (d ∷ ds) =
    if leb (2 ^ 1024 - 2 ^ 970) (digits_value 0 (d ∷ ds))
    then infinite negative
    else decimal negative (digits_value 0 (d ∷ ds)) 0

unfoldable pub signed : Text → Number
signed [] = nan
signed (c ∷ s) =
    if c == b'-'
    then number_of true (leading_digits s)
    else if c == b'+'
    then number_of false (leading_digits s)
    else number_of false (leading_digits (c ∷ s))

unfoldable pub parse_int : Text → Number
parse_int s = signed (trim_start s)

-- `toNumber` on a text, with the fallback 0; `toPort` is this.
abbrev pub finite_or_zero : Number → Number
finite_or_zero (decimal negative m p) = decimal negative m p
finite_or_zero _ = nat 0

unfoldable pub to_port : Text → Number
to_port s = finite_or_zero (parse_int s)

-- `n === 0`, also for -0.
abbrev pub is_zero : Number → Bool
is_zero (decimal negative m p) = m == 0
is_zero _ = false

unfoldable pub digits_text : ℕ → ℕ → Text → Text
digits_text zero n rest = rest
digits_text (suc fuel) n rest =
    let shown = (n % 10 + b'0') ∷ rest in
    elim (ltb n 10) [ true ↦ shown | false ↦ digits_text fuel (n / 10) shown ]

unfoldable pub whole_text : ℕ → Text
whole_text n = digits_text (suc n) n []

-- The last `places` digits of `m`, before `rest`.
unfoldable pub last_digits : ℕ → ℕ → Text → Text
last_digits zero m rest = rest
last_digits (suc places) m rest = last_digits places (m / 10) ((m % 10 + b'0') ∷ rest)

-- `m` divided by `10 ^ places`, with no zeros at the end of the fraction.
unfoldable pub decimal_text : ℕ → ℕ → Text
decimal_text zero m = whole_text m
decimal_text (suc places) m = elim (m % 10 == 0) [
  | true ↦ decimal_text places (m / 10)
  | false ↦ whole_text (m / 10 ^ suc places) ++ b'.' ∷ last_digits (suc places) m []
]

-- A number in a template literal; -0 is "0". JavaScript writes an exponent from 10^21 on and below
-- 10^-6, which is not modelled.
unfoldable pub number_text : Number → Text
number_text nan = codes "NaN"
number_text (infinite true) = codes "-Infinity"
number_text (infinite false) = codes "Infinity"
number_text (decimal negative m places) =
    if negative && not (m == 0) then b'-' ∷ decimal_text places m else decimal_text places m
