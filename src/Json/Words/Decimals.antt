-- ===== src/Json/Words/Decimals.antt =====
-- A number that is written in decimal is accepted as a number, and has its value.
use react_native_nitro_xray.Prelude.{
  All, Bool, List, Text, [], ap, append-nil, arith, drop, drop-append, false, leb, length, refl,
  some, suc, sym, true, zero, ℕ, ◌*◌, ◌++◌, ◌-◌, ◌/◌, ◌<◌, ◌^◌, ◌∙◌, ◌∷◌, ◌≡◌, ◌≢◌, ◌≤◌,
}
use react_native_nitro_xray.Json.{decimal}
use react_native_nitro_xray.Json.Parse.{
  is_number, after_fraction, after_exponent, after_digits, skip_digits,
}
use react_native_nitro_xray.Json.Words.Numbers.{fraction, after_whole-written, skip_digits-append}
use react_native_nitro_xray.Subscription.Numbers.{
  leading_digits, digits_value, whole_text, last_digits,
}
use react_native_nitro_xray.Subscription.Numbers.Written.{
  Digit, Digit-test, whole_text-filled, whole_text-Digit, leading_digits-Digit,
  leading_digits-append, length-leading_digits, digits_value-append, last_digits-Digit,
  length-last_digits, digits_value-last_digits, digits_value-whole_text,
}
use react_native_nitro_xray.Subscription.UserInfo.Printed.{not_infinity}
use react_native_nitro_xray.Subscription.UserInfo.{unsigned, behind_whole, behind_digits, bounded}

-- The digits to the end.
skip_digits-Digit : (s : Text) → All Digit s → skip_digits s ≡ []
unfolding skip_digits
skip_digits-Digit s h = sym (ap skip_digits (append-nil s)) ∙ skip_digits-append s [] h

after_digits-Digit : (s : Text) (n : ℕ) → All Digit s → length s ≡ suc n → after_digits s ≡ some []
unfolding after_digits
after_digits-Digit [] n h e = absurd (omega (arith, e))
after_digits-Digit (c ∷ s) n (h, hs) e = rw (Digit-test c h) (ap some (skip_digits-Digit s hs))

after_fraction-fraction : (places m : ℕ) → after_fraction (fraction places m) ≡ some []
unfolding after_fraction
after_fraction-fraction zero m = refl
after_fraction-fraction (suc places) m =
    after_digits-Digit (last_digits (suc places) m []) places
      (last_digits-Digit (suc places) m [] tt) (length-last_digits (suc places) m [] ∙ omega arith)

pub is_number-written : (n places m : ℕ) → is_number (whole_text n ++ fraction places m) ≡ true
unfolding is_number after_exponent
is_number-written n places m =
    rw (after_whole-written n places m) (rw (after_fraction-fraction places m) refl)

-- A text that starts with a digit.
drop-leading_digits :
    (w f : Text)
    → All Digit w
    → leading_digits f ≡ []
    → drop (length (leading_digits (w ++ f))) (w ++ f) ≡ f
drop-leading_digits w f h e =
    ap (λ n. drop n (w ++ f))
      (ap length (
          leading_digits-append w f h
          ∙ ap (λ t. leading_digits w ++ t) e
          ∙ append-nil (leading_digits w))
        ∙ length-leading_digits w h)
    ∙ drop-append w f

unsigned-parts :
    (negative : Bool) (w f : Text)
    → All Digit w
    → w ≢ []
    → leading_digits f ≡ []
    → unsigned negative (w ++ f) ≡ behind_whole negative (leading_digits w) f
unfolding unsigned
unsigned-parts negative [] f h ne e = absurd (ne refl)
unsigned-parts negative (c ∷ w) f (h, hs) ne e = rw (not_infinity c (w ++ f) h) (
    ap (λ t. behind_whole negative (leading_digits ((c ∷ w) ++ f)) t)
      (drop-leading_digits (c ∷ w) f (h, hs) e)
    ∙ ap (λ ds. behind_whole negative ds f)
        (leading_digits-append (c ∷ w) f (h, hs)
          ∙ (ap (λ t. leading_digits (c ∷ w) ++ t) e ∙ append-nil (leading_digits (c ∷ w)))))

bounded-plain :
    (negative : Bool) (m places : ℕ)
    → m < 10 ^ 21
    → bounded negative m places ≡ decimal negative m places
unfolding bounded
bounded-plain negative m places h = rw (finite m (10 ^ places) h (pow_positive places)) refl
  where
    pow_positive : (places : ℕ) → 1 ≤ 10 ^ places
    pow_positive zero = omega arith
    pow_positive (suc places) = omega (arith, pow_positive places)

    finite : (m p : ℕ) → m < 10 ^ 21 → 1 ≤ p → leb ((2 ^ 1024 - 2 ^ 970) * p) m ≡ false
    finite m p h k = ground arith

behind_digits-plain :
    (negative : Bool) (ds : List ℕ) (m places k : ℕ)
    → ds ≢ []
    → digits_value 0 ds ≡ m
    → k ≡ places
    → m < 10 ^ 21
    → behind_digits negative ds k [] ≡ decimal negative m places
unfolding behind_digits
behind_digits-plain negative [] m places k ne e l h = absurd (ne refl)
behind_digits-plain negative (d ∷ ds) m places k ne e l h =
    rw (e, l) (bounded-plain negative m places h)

leading_digits-fraction : (places m : ℕ) → leading_digits (fraction places m) ≡ []
unfolding leading_digits
leading_digits-fraction zero m = refl
leading_digits-fraction (suc places) m = refl

filled-append : (ds es : List ℕ) → ds ≢ [] → ds ++ es ≢ []
filled-append [] es ne = absurd (ne refl)
filled-append (d ∷ ds) es ne = λ e. cc e

leading_digits-filled : (s : Text) → All Digit s → s ≢ [] → leading_digits s ≢ []
leading_digits-filled [] h ne = absurd (ne refl)
leading_digits-filled (c ∷ s) h ne =
    λ e. absurd (omega (arith, length-leading_digits (c ∷ s) h, ap length e))

behind_whole-fraction :
    (negative : Bool) (ds : List ℕ) (places m : ℕ)
    → ds ≢ []
    → digits_value 0 ds ≡ m / 10 ^ places
    → m < 10 ^ 21
    → behind_whole negative ds (fraction places m) ≡ decimal negative m places
unfolding behind_whole digits_value leading_digits
behind_whole-fraction negative ds zero m ne e h =
    behind_digits-plain negative ds m 0 0 ne (e ∙ omega arith) refl h
behind_whole-fraction negative ds (suc places) m ne e h =
    let digits = last_digits (suc places) m [] in
    let fs = leading_digits digits in
    let all = last_digits-Digit (suc places) m [] tt in
    ap (behind_digits negative (ds ++ fs) (length fs)) (leading_digits-Digit digits all)
    ∙ behind_digits-plain negative (ds ++ fs) m (suc places) (length fs) (filled-append ds fs ne)
        (digits_value-append 0 ds fs
          ∙ (ap (λ n. digits_value n fs) e ∙ digits_value-last_digits (suc places) m []))
        (length-leading_digits digits all ∙ (length-last_digits (suc places) m [] ∙ omega arith)) h

pub unsigned-written :
    (negative : Bool) (places m : ℕ)
    → m < 10 ^ 21
    → unsigned negative (whole_text (m / 10 ^ places) ++ fraction places m)
      ≡ decimal negative m places
unsigned-written negative places m h =
    let n = m / 10 ^ places in
    unsigned-parts negative (whole_text n) (fraction places m) (whole_text-Digit n)
      (whole_text-filled n) (leading_digits-fraction places m)
    ∙ behind_whole-fraction negative (leading_digits (whole_text n)) places m
        (leading_digits-filled (whole_text n) (whole_text-Digit n) (whole_text-filled n))
        (digits_value-whole_text n) h
