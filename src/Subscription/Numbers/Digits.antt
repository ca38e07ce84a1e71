-- ===== src/Subscription/Numbers/Digits.antt =====
-- A port in a printed link is read back.
use react_native_nitro_xray.Prelude.{
  Bool-cases, List, Text, [], ap, arith, false, inl, inr, is_space, leb, ltb, refl, suc, trim_start,
  true, zero, ℕ, ◌%◌, ◌&&◌, ◌*◌, ◌+◌, ◌-◌, ◌/◌, ◌<◌, ◌==◌, ◌^◌, ◌∙◌, ◌∷◌, ◌≡◌, ◌≢◌, ◌≤◌, ◌⊎◌,
}
use react_native_nitro_xray.Json.{nat}
use react_native_nitro_xray.Subscription.Numbers.{
  leading_digits, digits_value, number_of, signed, parse_int, to_port, digits_text, whole_text,
}

is_digit :
    (d : ℕ) → d < 10 → (leb b'0' (d + b'0') && leb (d + b'0') b'9' ≡ true) × (d + b'0' - b'0' ≡ d)
is_digit d h = ground arith

pub read_digit :
    (m d : ℕ) (rest : Text)
    → d < 10
    → digits_value m (leading_digits ((d + b'0') ∷ rest))
      ≡ digits_value (m * 10 + d) (leading_digits rest)
unfolding leading_digits digits_value
read_digit m d rest h =
    rw ((is_digit d h).0)
      (ap (λ e. digits_value (m * 10 + e) (leading_digits rest)) (is_digit d h).1)

-- Reading goes on behind the digits of `n` with the value `n`.
pub digits_value-digits_text :
    (fuel n : ℕ) (rest : Text)
    → n < fuel
    → digits_value 0 (leading_digits (digits_text fuel n rest))
      ≡ digits_value n (leading_digits rest)
unfolding digits_text
digits_value-digits_text zero n rest h = absurd (omega arith)
digits_value-digits_text (suc fuel) n rest h = elim (Bool-cases (ltb n 10)) [
  | inl small ↦
      rw (small, digits_text)
        (read_digit 0 (n % 10) rest (omega arith)
          ∙ ap (λ m. digits_value m (leading_digits rest)) (ground arith))
  | inr large ↦
      rw (large, digits_text)
        (digits_value-digits_text fuel (n / 10) ((n % 10 + b'0') ∷ rest) (ground arith)
          ∙ (read_digit (n / 10) (n % 10) rest (omega arith)
              ∙ ap (λ m. digits_value m (leading_digits rest)) (omega arith)))
]

-- What is written starts with a digit.
abbrev StartsDigit : Text → Type 0
StartsDigit [] = ⊥
StartsDigit (c ∷ s) = (b'0' ≤ c) × (c ≤ b'9')

digits_text-StartsDigit :
    (fuel n : ℕ) (rest : Text)
    → StartsDigit rest ⊎ (1 ≤ fuel)
    → StartsDigit (digits_text fuel n rest)
unfolding digits_text
digits_text-StartsDigit zero n rest (inl h) = h
digits_text-StartsDigit zero n rest (inr h) = absurd (omega arith)
digits_text-StartsDigit (suc fuel) n rest h = elim (Bool-cases (ltb n 10)) [
  | inl small ↦ rw (small, digits_text) (omega arith)
  | inr large ↦
      rw (large, digits_text)
        (digits_text-StartsDigit fuel (n / 10) ((n % 10 + b'0') ∷ rest) (inl (omega arith)))
]

pub digits_value-end : (n : ℕ) → digits_value n (leading_digits []) ≡ n
unfolding digits_value leading_digits
digits_value-end n = refl

not_space : (c : ℕ) → b'0' ≤ c → c ≤ b'9' → is_space c ≡ false
unfolding is_space
not_space c h k = ground arith

not_sign : (c : ℕ) → b'0' ≤ c → ((c == b'-') ≡ false) × ((c == b'+') ≡ false)
not_sign c h = ground arith

parse_int-StartsDigit :
    (s : Text) → StartsDigit s → parse_int s ≡ number_of false (leading_digits s)
unfolding parse_int signed trim_start
parse_int-StartsDigit [] h = elim h [ ]
parse_int-StartsDigit (c ∷ s) (h, k) =
    rw (not_space c h k) (rw ((not_sign c h).0, (not_sign c h).1) refl)

leading_digits-filled : (s : Text) → StartsDigit s → leading_digits s ≢ []
unfolding leading_digits
leading_digits-filled [] h = elim h [ ]
leading_digits-filled (c ∷ s) h = λ e. no_digits (ground arith) e
  where
    no_digits : leb b'0' c && leb c b'9' ≡ true → leading_digits (c ∷ s) ≡ [] → ⊥
    no_digits d e = cc (rw d at e)

number_of-small :
    (ds : List ℕ) (n : ℕ)
    → ds ≢ []
    → digits_value 0 ds ≡ n
    → n < 2 ^ 53
    → number_of false ds ≡ nat n
unfolding number_of
number_of-small [] n ne e h = absurd (ne refl)
number_of-small (d ∷ ds) n ne e h = rw e (rw (finite n h) refl)
  where
    finite : (n : ℕ) → n < 2 ^ 53 → leb (2 ^ 1024 - 2 ^ 970) n ≡ false
    finite n h = ground arith

-- A port below 2^53 that is written in decimal, as in the name that a server without one gets, is read
-- back as this number.
pub to_port-whole_text : (n : ℕ) → n < 2 ^ 53 → to_port (whole_text n) ≡ nat n
unfolding to_port whole_text
to_port-whole_text n h =
    let starts = digits_text-StartsDigit (suc n) n [] (inr (omega arith)) in
    let value : digits_value 0 (leading_digits (digits_text (suc n) n [])) ≡ n =
      digits_value-digits_text (suc n) n [] (omega arith) ∙ digits_value-end n in
    rw
      (
        parse_int-StartsDigit (digits_text (suc n) n []) starts,
        number_of-small (leading_digits (digits_text (suc n) n [])) n
            (leading_digits-filled (digits_text (suc n) n []) starts) value h,
      )
      refl
