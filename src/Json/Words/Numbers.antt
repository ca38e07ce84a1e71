-- ===== src/Json/Words/Numbers.antt =====
-- The words of numbers.
use react_native_nitro_xray.Prelude.{
  All, Bool, Text, [], ap, append-nil, arith, false, refl, some, suc, sym, true, zero, ℕ, ◌%◌, ◌*◌,
  ◌++◌, ◌/◌, ◌<◌, ◌==◌, ◌^◌, ◌∙◌, ◌∷◌, ◌≡◌, ◌≢◌, ◌≤◌,
}
use react_native_nitro_xray.Json.{Number, nan, infinite, decimal}
use react_native_nitro_xray.Json.Parse.{mark, after_whole, after_digits, skip_digits}
use react_native_nitro_xray.Json.Words.{InWord}
use react_native_nitro_xray.Subscription.Numbers.{whole_text, last_digits, decimal_text}
use react_native_nitro_xray.Subscription.Numbers.Written.{
  Digit, Digit-test, Begins, whole_text-Begins, whole_text-zero, whole_text-Digit,
  last_digits-Digit,
}

-- The numbers that are printed without an exponent, in their shortest form: no zero at the end of the
-- fraction, and no -0.
abbrev pub Signed : Bool → ℕ → Type 0
Signed true m = m ≢ 0
Signed false m = Unit

abbrev pub Shortest : ℕ → ℕ → Type 0
Shortest m zero = Unit
Shortest m (suc places) = (m % 10 ≢ 0) × (10 ^ suc places ≤ m * 10 ^ 6)

abbrev pub IsPlainNumber : Number → Type 0
IsPlainNumber nan = ⊥
IsPlainNumber (infinite negative) = ⊥
IsPlainNumber (decimal negative m places) = Signed negative m × (Shortest m places × (m < 10 ^ 21))

-- The digits behind the whole part.
abbrev pub fraction : ℕ → ℕ → Text
fraction zero m = []
fraction (suc places) m = b'.' ∷ last_digits (suc places) m []

pub decimal_text-parts :
    (places m : ℕ)
    → Shortest m places
    → decimal_text places m ≡ whole_text (m / 10 ^ places) ++ fraction places m
unfolding decimal_text
decimal_text-parts zero m h =
    sym (append-nil (whole_text m)) ∙ ap (λ n. whole_text n ++ []) (omega arith)
decimal_text-parts (suc places) m (h, k) = rw (ne_test m h, decimal_text) refl
  where
    ne_test : (m : ℕ) → m % 10 ≢ 0 → (m % 10 == 0) ≡ false
    ne_test m h = ground (arith, h)

pub Digit-InWord : (c : ℕ) → Digit c → InWord c
unfolding mark
Digit-InWord c h = ground arith

pub All-map : {P Q : ℕ → Type 0} → ((c : ℕ) → P c → Q c) → (s : Text) → All P s → All Q s
All-map f [] h = tt
All-map f (c ∷ s) (h, k) = (f c h, All-map f s k)

point-InWord : InWord b'.'
unfolding mark
point-InWord = refl

pub minus-InWord : InWord b'-'
unfolding mark
minus-InWord = refl

pub fraction-InWord : (places m : ℕ) → All InWord (fraction places m)
fraction-InWord zero m = tt
fraction-InWord (suc places) m =
    (point-InWord, All-map Digit-InWord _ (last_digits-Digit (suc places) m [] tt))

pub skip_digits-append : (s t : Text) → All Digit s → skip_digits (s ++ t) ≡ skip_digits t
unfolding skip_digits
skip_digits-append [] t h = refl
skip_digits-append (c ∷ s) t (h, k) = rw (Digit-test c h) (skip_digits-append s t k)

skip_digits-fraction : (places m : ℕ) → skip_digits (fraction places m) ≡ fraction places m
unfolding skip_digits
skip_digits-fraction zero m = refl
skip_digits-fraction (suc places) m = refl

after_whole-Begins :
    (s t : Text) → All Digit s → Begins s → after_whole (s ++ t) ≡ some (skip_digits t)
unfolding after_whole after_digits
after_whole-Begins [] t h b = elim b [ ]
after_whole-Begins (c ∷ s) t (h, hs) (d, b) =
    rw (ne_zero c b, Digit-test c h) (ap some (skip_digits-append s t hs))
  where
    ne_zero : (c : ℕ) → c ≢ b'0' → (c == b'0') ≡ false
    ne_zero c b = ground (arith, b)

after_whole-zero : (t : Text) → after_whole (b'0' ∷ t) ≡ some t
unfolding after_whole
after_whole-zero t = refl

pub after_whole-written :
    (n places m : ℕ) → after_whole (whole_text n ++ fraction places m) ≡ some (fraction places m)
after_whole-written zero places m = rw whole_text-zero (after_whole-zero (fraction places m))
after_whole-written (suc n) places m =
    after_whole-Begins (whole_text (suc n)) (fraction places m) (whole_text-Digit (suc n))
      (whole_text-Begins (suc n) (omega arith))
    ∙ ap some (skip_digits-fraction places m)
