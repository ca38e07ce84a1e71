-- ===== src/Json/Words/Printed.antt =====
-- A printed number is read as one token.
use react_native_nitro_xray.Prelude.{
  All, All-append, Bool, Text, [], ap, arith, false, refl, some, text_eq, true, ℕ, ◌++◌, ◌/◌, ◌<◌,
  ◌==◌, ◌^◌, ◌∙◌, ◌∷◌, ◌≡◌, ◌≢◌,
}
use react_native_nitro_xray.Json.{Number, nan, infinite, decimal, num}
use react_native_nitro_xray.Json.Print.{number_json}
use react_native_nitro_xray.Json.Parse.{value, between, tokens, word_token, number_token}
use react_native_nitro_xray.Json.Strings.{before}
use react_native_nitro_xray.Json.Words.{InWord, Ends, tokens-word}
use react_native_nitro_xray.Json.Words.Numbers.{
  fraction, Shortest, IsPlainNumber, decimal_text-parts, Digit-InWord, All-map, minus-InWord,
  fraction-InWord,
}
use react_native_nitro_xray.Subscription.Numbers.{whole_text, number_text}
use react_native_nitro_xray.Subscription.Numbers.Written.{
  Digit, whole_text-filled, whole_text-Digit,
}
use react_native_nitro_xray.Json.Words.Decimals.{is_number-written, unsigned-written}

written : ℕ → ℕ → Text
written places m = whole_text (m / 10 ^ places) ++ fraction places m

-- A word that starts with a digit is no literal.
Digit-only :
    (c : ℕ)
    → Digit c
    → ((c == b't') ≡ false)
      × (((c == b'f') ≡ false) × (((c == b'n') ≡ false) × ((c == b'-') ≡ false)))
Digit-only c h = (ground (arith, h), (ground (arith, h), (ground (arith, h), ground (arith, h))))

word_token-Digit :
    (s : Text)
    → All Digit s
    → s ≢ []
    → (t : Text) → word_token (s ++ t) ≡ number_token false (s ++ t)
unfolding word_token text_eq
word_token-Digit [] h ne t = absurd (ne refl)
word_token-Digit (c ∷ s) (h, hs) ne t =
    let (t', (f, (n, m))) = Digit-only c h in rw (t', f, n, m) refl

number_token-written :
    (negative : Bool) (places m : ℕ)
    → m < 10 ^ 21
    → number_token negative (written places m) ≡ some (value (num (decimal negative m places)))
unfolding number_token written
number_token-written negative places m h =
    rw (is_number-written (m / 10 ^ places) places m)
      (ap (λ n. some (value (num n))) (unsigned-written negative places m h))

word_token-minus : (s : Text) → word_token (b'-' ∷ s) ≡ number_token true s
unfolding word_token text_eq
word_token-minus s = refl

-- The two signs.
number_text-negative :
    (m places : ℕ)
    → m ≢ 0
    → Shortest m places
    → number_text (decimal true m places) ≡ b'-' ∷ written places m
unfolding number_text written
number_text-negative m places h k = rw (nonzero m h) (ap (◌∷◌ b'-') (decimal_text-parts places m k))
  where
    nonzero : (m : ℕ) → m ≢ 0 → (m == 0) ≡ false
    nonzero m h = ground (arith, h)

number_text-positive :
    (m places : ℕ) → Shortest m places → number_text (decimal false m places) ≡ written places m
unfolding number_text written
number_text-positive m places k = decimal_text-parts places m k

word_token-number_text :
    (negative : Bool) (m places : ℕ)
    → IsPlainNumber (decimal negative m places)
    → word_token (number_text (decimal negative m places))
      ≡ some (value (num (decimal negative m places)))
unfolding written
word_token-number_text true m places (s, (h, k)) =
    ap word_token (number_text-negative m places s h)
    ∙ (word_token-minus (written places m) ∙ number_token-written true places m k)
word_token-number_text false m places (s, (h, k)) =
    ap word_token (number_text-positive m places h)
    ∙ (word_token-Digit (whole_text (m / 10 ^ places)) (whole_text-Digit (m / 10 ^ places))
          (whole_text-filled (m / 10 ^ places)) (fraction places m)
        ∙ number_token-written false places m k)

All-InWord-written : (places m : ℕ) → All InWord (written places m)
unfolding written
All-InWord-written places m =
    All-append InWord (whole_text (m / 10 ^ places)) (fraction places m)
      (All-map Digit-InWord _ (whole_text-Digit (m / 10 ^ places))) (fraction-InWord places m)

number_text-InWord :
    (negative : Bool) (m places : ℕ)
    → IsPlainNumber (decimal negative m places)
    → All InWord (number_text (decimal negative m places))
number_text-InWord true m places (s, (h, k)) =
    rw (number_text-negative m places s h) (minus-InWord, All-InWord-written places m)
number_text-InWord false m places (s, (h, k)) =
    rw (number_text-positive m places h) (All-InWord-written places m)

-- A printed number is one token.
pub tokens-number_json :
    (n : Number) (rest : Text)
    → IsPlainNumber n
    → Ends rest
    → tokens between (number_json n ++ rest) ≡ before (value (num n) ∷ []) (tokens between rest)
tokens-number_json nan rest h k = elim h [ ]
tokens-number_json (infinite negative) rest h k = elim h [ ]
tokens-number_json (decimal negative m places) rest h k =
    tokens-word (number_text (decimal negative m places)) rest
      (value (num (decimal negative m places))) (number_text-InWord negative m places h) k
      (word_token-number_text negative m places h)
