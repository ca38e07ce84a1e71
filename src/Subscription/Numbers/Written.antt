-- ===== src/Subscription/Numbers/Written.antt =====
-- A number that is written in decimal.
use react_native_nitro_xray.Prelude.{
  All, Bool, Bool-cases, List, Text, [], ap, arith, drop, inl, inr, leb, length, ltb, refl, suc,
  sym, true, zero, ℕ, ◌%◌, ◌&&◌, ◌*◌, ◌++◌, ◌+◌, ◌-◌, ◌/◌, ◌<◌, ◌^◌, ◌∙◌, ◌∷◌, ◌≡◌, ◌≢◌, ◌≤◌,
}
use native.Mathlib.Nat.{pow-succ', div-div-eq-div-mul}
use react_native_nitro_xray.Subscription.Numbers.{
  leading_digits, digits_value, digits_text, whole_text, last_digits,
}
use react_native_nitro_xray.Subscription.Numbers.Digits.{
  read_digit, digits_value-digits_text, digits_value-end,
}

abbrev pub Digit : ℕ → Type 0
Digit c = (b'0' ≤ c) × (c ≤ b'9')

pub digits_text-Digit :
    (fuel n : ℕ) (rest : Text) → All Digit rest → All Digit (digits_text fuel n rest)
unfolding digits_text
digits_text-Digit zero n rest h = h
digits_text-Digit (suc fuel) n rest h = elim (Bool-cases (ltb n 10)) [
  | inl small ↦ rw (small, digits_text) (omega arith, h)
  | inr large ↦
      rw (large, digits_text)
        (digits_text-Digit fuel (n / 10) ((n % 10 + b'0') ∷ rest) (omega arith, h))
]

pub digits_text-filled : (fuel n : ℕ) (c : ℕ) (rest : Text) → digits_text fuel n (c ∷ rest) ≢ []
unfolding digits_text
digits_text-filled zero n c rest = λ e. cc e
digits_text-filled (suc fuel) n c rest = elim (Bool-cases (ltb n 10)) [
  | inl small ↦ rw (small, digits_text) (λ e. cc e)
  | inr large ↦ rw (large, digits_text) (digits_text-filled fuel (n / 10) _ (c ∷ rest))
]

pub whole_text-filled : (n : ℕ) → whole_text n ≢ []
unfolding whole_text digits_text
whole_text-filled n = elim (Bool-cases (ltb n 10)) [
  | inl small ↦ rw (small, digits_text) (λ e. cc e)
  | inr large ↦ rw (large, digits_text) (digits_text-filled n (n / 10) _ [])
]

pub leading_digits-Digit : (s : Text) → All Digit s → drop (length (leading_digits s)) s ≡ []
unfolding leading_digits
leading_digits-Digit [] h = refl
leading_digits-Digit (c ∷ s) (h, k) = rw (is_digit c h) (leading_digits-Digit s k)
  where
    is_digit : (c : ℕ) → Digit c → leb b'0' c && leb c b'9' ≡ true
    is_digit c h = ground arith

pub whole_text-Digit : (n : ℕ) → All Digit (whole_text n)
unfolding whole_text
whole_text-Digit n = digits_text-Digit (suc n) n [] tt

abbrev pub is_digit_code : ℕ → Bool
is_digit_code c = leb b'0' c && leb c b'9'

pub Digit-test : (c : ℕ) → Digit c → is_digit_code c ≡ true
Digit-test c h = ground arith

-- Reading digits in two parts.
pub leading_digits-append :
    (s t : Text) → All Digit s → leading_digits (s ++ t) ≡ leading_digits s ++ leading_digits t
unfolding leading_digits
leading_digits-append [] t h = refl
leading_digits-append (c ∷ s) t (h, k) =
    rw (Digit-test c h) (ap (◌∷◌ (c - b'0')) (leading_digits-append s t k))

pub length-leading_digits : (s : Text) → All Digit s → length (leading_digits s) ≡ length s
unfolding leading_digits
length-leading_digits [] h = refl
length-leading_digits (c ∷ s) (h, k) = rw (Digit-test c h) (ap suc (length-leading_digits s k))

pub digits_value-append :
    (n : ℕ) (ds es : List ℕ) → digits_value n (ds ++ es) ≡ digits_value (digits_value n ds) es
unfolding digits_value
digits_value-append n [] es = refl
digits_value-append n (d ∷ ds) es = digits_value-append (n * 10 + d) ds es

pub last_digits-Digit :
    (places m : ℕ) (rest : Text) → All Digit rest → All Digit (last_digits places m rest)
unfolding last_digits
last_digits-Digit zero m rest h = h
last_digits-Digit (suc places) m rest h =
    last_digits-Digit places (m / 10) ((m % 10 + b'0') ∷ rest) (omega arith, h)

pub length-last_digits :
    (places m : ℕ) (rest : Text) → length (last_digits places m rest) ≡ places + length rest
unfolding last_digits
length-last_digits zero m rest = omega arith
length-last_digits (suc places) m rest =
    omega (arith, length-last_digits places (m / 10) ((m % 10 + b'0') ∷ rest))

-- The whole part is read, and then the digits of the fraction, which is the mantissa.
pub digits_value-last_digits :
    (places m : ℕ) (rest : Text)
    → digits_value (m / 10 ^ places) (leading_digits (last_digits places m rest))
      ≡ digits_value m (leading_digits rest)
unfolding last_digits
digits_value-last_digits zero m rest = ap (λ n. digits_value n (leading_digits rest)) (omega arith)
digits_value-last_digits (suc places) m rest =
    ap (λ n. digits_value n (leading_digits (last_digits (suc places) m rest))) (tens places m)
    ∙ (digits_value-last_digits places (m / 10) ((m % 10 + b'0') ∷ rest)
        ∙ (read_digit (m / 10) (m % 10) rest (omega arith)
            ∙ ap (λ n. digits_value n (leading_digits rest)) (omega arith)))
  where
    tens : (places m : ℕ) → m / 10 ^ suc places ≡ m / 10 / 10 ^ places
    tens places m = rw (pow-succ' 10 places) (sym (div-div-eq-div-mul m 10 (10 ^ places)))

pub digits_value-whole_text : (n : ℕ) → digits_value 0 (leading_digits (whole_text n)) ≡ n
unfolding whole_text
digits_value-whole_text n = digits_value-digits_text (suc n) n [] (omega arith) ∙ digits_value-end n

-- The first unit, and it is no zero.
abbrev pub Begins : Text → Type 0
Begins [] = ⊥
Begins (c ∷ s) = Digit c × (c ≢ b'0')

digits_text-Begins :
    (fuel n : ℕ) (rest : Text) → n < fuel → 1 ≤ n → Begins (digits_text fuel n rest)
unfolding digits_text
digits_text-Begins zero n rest h k = absurd (omega arith)
digits_text-Begins (suc fuel) n rest h k = elim (Bool-cases (ltb n 10)) [
  | inl small ↦ rw (small, digits_text) (ground (arith, small))
  | inr large ↦
      rw (large, digits_text)
        (digits_text-Begins fuel (n / 10) ((n % 10 + b'0') ∷ rest) (ground (arith, large))
          (ground (arith, large)))
]

pub whole_text-Begins : (n : ℕ) → 1 ≤ n → Begins (whole_text n)
unfolding whole_text
whole_text-Begins n h = digits_text-Begins (suc n) n [] (omega arith) h

pub whole_text-zero : whole_text 0 ≡ b'0' ∷ []
unfolding whole_text digits_text
whole_text-zero = refl
