-- ===== src/Json/Strings.antt =====
-- The units of a string, as `JSON.stringify` writes them, escaped or not, are read back.
pub mod Quoted
use react_native_nitro_xray.Prelude.{
  Bool, Bool-cases, List, Option, Text, [], ap, append-nil, append_assoc, arith, eqb_iff, false,
  if◌then◌else◌, inl, inr, ltb, none, or_default, refl, some, true, ℕ, ◌%◌, ◌&&◌, ◌*◌, ◌++◌, ◌+◌,
  ◌/◌, ◌<◌, ◌==◌, ◌||◌, ◌∙◌, ◌∷◌, ◌≡◌,
}
use react_native_nitro_xray.Json.{str, ◌>>=◌}
use react_native_nitro_xray.Json.Print.{
  hex_digit, unicode_escape, escaped, is_high, is_low, single, quoted, string_text,
}
use react_native_nitro_xray.Json.Parse.{
  Token, value, Mode, between, escape, unicode, reversed, read, unescaped, tokens, start,
}
use react_native_nitro_xray.Subscription.UserInfo.{radix_value, digit_value}

-- Tokens before what else is read.
abbrev pub before : List Token → Option (List Token) → Option (List Token)
before ts o = o >>= λ more. some (ts ++ more)

pub before-append :
    (ts us : List Token) (o : Option (List Token)) → before (ts ++ us) o ≡ before ts (before us o)
before-append ts us none = refl
before-append ts us (some more) = ap some (append_assoc ts us more)

pub before-nil : (o : Option (List Token)) → before [] o ≡ o
before-nil none = refl
before-nil (some more) = refl

-- A unit that gives `ts`.
pub tokens-cons :
    (mode mode' : Mode) (c : ℕ) (ts : List Token) (s : Text)
    → read mode c ≡ some (ts, mode')
    → tokens mode (c ∷ s) ≡ before ts (tokens mode' s)
unfolding tokens
tokens-cons mode mode' c ts s h = rw h refl

-- A unit that gives no token.
pub tokens-silent :
    (mode mode' : Mode) (c : ℕ) (s : Text)
    → read mode c ≡ some ([], mode')
    → tokens mode (c ∷ s) ≡ tokens mode' s
tokens-silent mode mode' c s h = tokens-cons mode mode' c [] s h ∙ before-nil (tokens mode' s)

-- The unit `c` of a string, escaped or not.
abbrev pub Reads : ℕ → Text → Type 0
Reads c written =
    (acc rest : Text)
    → tokens (Mode.quoted acc) (written ++ rest) ≡ tokens (Mode.quoted (c ∷ acc)) rest

read-plain :
    (c : ℕ) (acc : Text)
    → (c == b'"') ≡ false
    → (c == b'\\') ≡ false
    → ltb c 32 ≡ false
    → read (Mode.quoted acc) c ≡ some ([], Mode.quoted (c ∷ acc))
unfolding read
read-plain c acc q b l = rw (q, b, l) refl

pub plain-Reads :
    (c : ℕ) → (c == b'"') ≡ false → (c == b'\\') ≡ false → ltb c 32 ≡ false → Reads c (c ∷ [])
plain-Reads c q b l acc rest = tokens-silent _ _ c rest (read-plain c acc q b l)

read-backslash : (acc : Text) → read (Mode.quoted acc) b'\\' ≡ some ([], escape acc)
unfolding read
read-backslash acc = refl

read-escape :
    (c d : ℕ) (acc : Text)
    → (c == b'u') ≡ false
    → unescaped c ≡ some d
    → read (escape acc) c ≡ some ([], Mode.quoted (d ∷ acc))
unfolding read
read-escape c d acc u h = rw (u, h) refl

-- A backslash and one unit.
pub escape-Reads : (c d : ℕ) → (c == b'u') ≡ false → unescaped c ≡ some d → Reads d (b'\\' ∷ c ∷ [])
escape-Reads c d u h acc rest =
    tokens-silent _ _ b'\\' (c ∷ rest) (read-backslash acc)
    ∙ tokens-silent _ _ c rest (read-escape c d acc u h)

digit_value-hex_digit : (x : ℕ) → x < 16 → digit_value (hex_digit x) ≡ x
unfolding hex_digit
digit_value-hex_digit x h = ground arith

radix_value-cons :
    (c x n : ℕ) (s : Text)
    → digit_value c ≡ x
    → x < 16
    → radix_value 16 n (c ∷ s) ≡ radix_value 16 (n * 16 + x) s
unfolding radix_value
radix_value-cons c x n s e h = rw e (rw (small x h) refl)
  where
    small : (x : ℕ) → x < 16 → ltb x 16 ≡ true
    small x h = ground arith

radix_value-hex_digit :
    (x n : ℕ) (s : Text)
    → x < 16
    → radix_value 16 n (hex_digit x ∷ s) ≡ radix_value 16 (n * 16 + x) s
radix_value-hex_digit x n s h = radix_value-cons (hex_digit x) x n s (digit_value-hex_digit x h) h

radix_value-nil : (n : ℕ) → radix_value 16 n [] ≡ some n
unfolding radix_value
radix_value-nil n = refl

-- The four digits of a unit below 2^16.
hex_digits :
    (c : ℕ)
    → c < 65536
    → radix_value 16 0 (
        hex_digit (c / 4096 % 16)
        ∷ hex_digit (c / 256 % 16)
        ∷ hex_digit (c / 16 % 16)
        ∷ hex_digit (c % 16)
        ∷ [])
      ≡ some c
hex_digits c h =
    radix_value-hex_digit (c / 4096 % 16) 0 _ (omega arith)
    ∙ (radix_value-hex_digit (c / 256 % 16) _ _ (omega arith)
        ∙ (radix_value-hex_digit (c / 16 % 16) _ _ (omega arith)
            ∙ (radix_value-hex_digit (c % 16) _ [] (omega arith)
                ∙ (radix_value-nil _ ∙ ap some (omega arith)))))

read-unicode :
    (x y z w d : ℕ) (acc : Text)
    → radix_value 16 0 (x ∷ y ∷ z ∷ w ∷ []) ≡ some d
    → read (unicode acc (z ∷ y ∷ x ∷ [])) w ≡ some ([], Mode.quoted (d ∷ acc))
unfolding read
read-unicode x y z w d acc h = rw h refl

start-unicode : (acc : Text) → read (escape acc) b'u' ≡ some ([], unicode acc [])
unfolding read
start-unicode acc = refl

one-unicode : (acc : Text) (x : ℕ) → read (unicode acc []) x ≡ some ([], unicode acc (x ∷ []))
unfolding read
one-unicode acc x = refl

two-unicode :
    (acc : Text) (x y : ℕ) → read (unicode acc (x ∷ [])) y ≡ some ([], unicode acc (y ∷ x ∷ []))
unfolding read
two-unicode acc x y = refl

three-unicode :
    (acc : Text) (x y z : ℕ)
    → read (unicode acc (y ∷ x ∷ [])) z ≡ some ([], unicode acc (z ∷ y ∷ x ∷ []))
unfolding read
three-unicode acc x y z = refl

pub unicode_escape-Reads : (c : ℕ) → c < 65536 → Reads c (unicode_escape c)
unfolding unicode_escape
unicode_escape-Reads c h acc rest =
    tokens-silent _ _ b'\\' _ (read-backslash acc)
    ∙ (tokens-silent _ _ b'u' _ (start-unicode acc)
        ∙ (tokens-silent _ _ (hex_digit (c / 4096 % 16)) _ (one-unicode acc _)
            ∙ (tokens-silent _ _ (hex_digit (c / 256 % 16)) _ (two-unicode acc _ _)
                ∙ (tokens-silent _ _ (hex_digit (c / 16 % 16)) _ (three-unicode acc _ _ _)
                    ∙ tokens-silent _ _ (hex_digit (c % 16)) rest
                        (read-unicode _ _ _ _ c acc (hex_digits c h))))))
