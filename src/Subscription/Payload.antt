-- ===== src/Subscription/Payload.antt =====
-- `looksLikeBase64` of src/subscription/base64.ts, and the text that `parseSubscription` splits.
use react_native_nitro_xray.Prelude.{
  length-append, length, ◌≤◌, refl, arith, [], ◌∷◌, Text, List, true, ◌≡◌, ◌≢◌, ℕ, Bool, All,
  All-append, ap, codes, false, if◌then◌else◌, index_of, is_some, is_space, map, not, take, text_eq,
  trim, trim_end, trim_start, ◌&&◌, ◌==◌, ◌||◌, ◌∙◌,
}
use react_native_nitro_xray.Subscription.Base64.{b64_alphabet, base64_to_string}
use react_native_nitro_xray.Subscription.Base64.Groups.{IsSextet}
use react_native_nitro_xray.Subscription.Base64.Letters.{holds_to, holds_to-each}
use react_native_nitro_xray.Subscription.Base64.RoundTrip.{
  encode, letter, six_bits, padding, IsByte, six_bits-IsSextet,
}
use react_native_nitro_xray.Subscription.Base64.Utf8.{
  utf8_text, utf16_text, IsCodePoint, base64_to_string-encode, utf8_text-IsByte, length-utf8_bytes,
  utf8_bytes,
}

-- The class of the regular expression: the letters of both alphabets, `=` and white space.
unfoldable pub is_class : ℕ → Bool
is_class c =
    is_some (index_of c b64_alphabet) || (c == b'-' || (c == b'_' || (c == b'=' || is_space c)))

unfoldable pub all_class : Text → Bool
all_class [] = true
all_class (c ∷ s) = is_class c && all_class s

-- `includes('://')`
unfoldable pub has_scheme : Text → Bool
has_scheme [] = false
has_scheme (c ∷ s) = text_eq (take 3 (c ∷ s)) (codes "://") || has_scheme s

abbrev pub is_filled : Text → Bool
is_filled [] = false
is_filled (c ∷ s) = true

unfoldable pub looks_like_base64 : Text → Bool
looks_like_base64 input =
    let trimmed = trim input in
    if has_scheme trimmed then false else all_class trimmed && is_filled trimmed

-- The first line of `parseSubscription`.
unfoldable pub payload_text : Text → Text
payload_text payload = if looks_like_base64 payload then base64_to_string payload else payload

-- A unit of an encoded text: in the class, and no white space.
unfoldable is_solid : ℕ → Bool
is_solid c = is_class c && not (is_space c) && not (c == b':')

abbrev Solid : Text → Type 0
Solid = All (λ c. is_solid c ≡ true)

solid_parts :
    (c : ℕ)
    → is_solid c ≡ true
    → (is_class c ≡ true) × ((is_space c ≡ false) × ((c == b':') ≡ false))
unfolding is_solid
solid_parts c h = ground arith

trim_start-Solid : (s : Text) → Solid s → trim_start s ≡ s
unfolding trim_start
trim_start-Solid [] k = refl
trim_start-Solid (c ∷ s) (h, k) = rw (solid_parts c h).1.0 refl

trim_end-Solid : (s : Text) → Solid s → trim_end s ≡ s
unfolding trim_end
trim_end-Solid [] k = refl
trim_end-Solid (c ∷ []) (h, k) = rw (solid_parts c h).1.0 refl
trim_end-Solid (c ∷ d ∷ s) (h, k) = rw (trim_end-Solid (d ∷ s) k) refl

has_scheme-Solid : (s : Text) → Solid s → has_scheme s ≡ false
unfolding has_scheme text_eq
has_scheme-Solid [] k = refl
has_scheme-Solid (c ∷ s) (h, k) = rw ((solid_parts c h).1.1, has_scheme-Solid s k) refl

all_class-Solid : (s : Text) → Solid s → all_class s ≡ true
unfolding all_class
all_class-Solid [] k = refl
all_class-Solid (c ∷ s) (h, k) = rw ((solid_parts c h).0, all_class-Solid s k) refl

looks_like_base64-Solid : (c : ℕ) (s : Text) → Solid (c ∷ s) → looks_like_base64 (c ∷ s) ≡ true
unfolding looks_like_base64 trim
looks_like_base64-Solid c s k =
    let same : trim (c ∷ s) ≡ c ∷ s =
      ap (λ t. trim_end t) (trim_start-Solid (c ∷ s) k) ∙ trim_end-Solid (c ∷ s) k in
    rw (same, has_scheme-Solid (c ∷ s) k, all_class-Solid (c ∷ s) k) refl

letter-solid : (url : Bool) → holds_to (λ v. is_solid (letter url v)) 64 ≡ true
unfolding holds_to is_solid is_class letter b64_alphabet index_of is_space
letter-solid true = refl
letter-solid false = refl

letters-Solid : (url : Bool) (vs : List ℕ) → All IsSextet vs → Solid (map (letter url) vs)
letters-Solid url [] k = tt
letters-Solid url (v ∷ vs) (h, k) =
    (holds_to-each (λ v. is_solid (letter url v)) 64 (letter-solid url) v h, letters-Solid url vs k)

padding-Solid : (bytes : List ℕ) → Solid (padding bytes)
unfolding padding is_solid is_class index_of b64_alphabet is_space
padding-Solid [] = tt
padding-Solid (a ∷ []) = (refl, (refl, tt))
padding-Solid (a ∷ b ∷ []) = (refl, tt)
padding-Solid (a ∷ b ∷ c ∷ rest) = padding-Solid rest

encode-Solid :
    (url padded : Bool) (bytes : List ℕ) → All IsByte bytes → Solid (encode url padded bytes)
unfolding encode
encode-Solid url true bytes h =
    All-append _ (map (letter url) (six_bits bytes)) (padding bytes)
      (letters-Solid url (six_bits bytes) (six_bits-IsSextet bytes h)) (padding-Solid bytes)
encode-Solid url false bytes h =
    All-append _ (map (letter url) (six_bits bytes)) []
      (letters-Solid url (six_bits bytes) (six_bits-IsSextet bytes h)) tt

encode-filled : (url padded : Bool) (b : ℕ) (bytes : List ℕ) → encode url padded (b ∷ bytes) ≢ []
unfolding encode six_bits
encode-filled url padded b [] = λ e. cc e
encode-filled url padded b (c ∷ []) = λ e. cc e
encode-filled url padded b (c ∷ d ∷ bytes) = λ e. cc e

looks_like_base64-filled : (s : Text) → Solid s → s ≢ [] → looks_like_base64 s ≡ true
looks_like_base64-filled [] k ne = absurd (ne refl)
looks_like_base64-filled (c ∷ s) k ne = looks_like_base64-Solid c s k

looks_like_base64-encode :
    (url padded : Bool) (bytes : List ℕ)
    → All IsByte bytes
    → 1 ≤ length bytes
    → looks_like_base64 (encode url padded bytes) ≡ true
looks_like_base64-encode url padded [] h filled = absurd (omega arith)
looks_like_base64-encode url padded (b ∷ bytes) h filled =
    looks_like_base64-filled (encode url padded (b ∷ bytes)) (encode-Solid url padded (b ∷ bytes) h)
      (encode-filled url padded b bytes)

length-utf8_text : (c : ℕ) (cs : List ℕ) → 1 ≤ length (utf8_text (c ∷ cs))
unfolding utf8_text
length-utf8_text c cs =
    omega (arith, length-utf8_bytes c, length-append (utf8_bytes c) (utf8_text cs))

-- A subscription that is the base64, in either alphabet, padded or not, of a text of code points that is
-- not empty, is recognised as base64 and read as that text.
pub payload_text-encode :
    (url padded : Bool) (c : ℕ) (cs : List ℕ)
    → All IsCodePoint (c ∷ cs)
    → payload_text (encode url padded (utf8_text (c ∷ cs))) ≡ utf16_text (c ∷ cs)
unfolding payload_text
payload_text-encode url padded c cs h =
    let bytes = utf8_text (c ∷ cs) in
    let looks =
      looks_like_base64-encode url padded bytes (utf8_text-IsByte (c ∷ cs) h)
        (length-utf8_text c cs) in
    rw (looks, payload_text) (base64_to_string-encode url padded (c ∷ cs) h)
