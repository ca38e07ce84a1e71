-- ===== src/Subscription/Base64/RoundTrip.antt =====
-- What RFC 4648 encodes, `base64ToBytes` decodes: both alphabets, padded or not.
use react_native_nitro_xray.Prelude.{
  All, Bool, Lacks, List, Option, Text, [], ap, arith, false, get_or, if◌then◌else◌, index_of,
  is_space, map, none, not, or_default, refl, some, true, ℕ, ◌%◌, ◌&&◌, ◌*◌, ◌++◌, ◌+◌, ◌/◌, ◌<◌,
  ◌==◌, ◌∷◌, ◌≡◌, ◌≢◌,
}
use react_native_nitro_xray.Subscription.Base64.{
  b64_alphabet, b64_lookup, standard_char, normalized, all_equals, strip_padding, base64_to_bytes,
}
use react_native_nitro_xray.Subscription.Base64.Letters.{sextets, holds_to, holds_to-each}
use react_native_nitro_xray.Subscription.Base64.Groups.{groups, IsSextet, base64_to_bytes-sextets}

abbrev pub IsByte : ℕ → Type 0
IsByte b = b < 256

-- The six-bit values of a list of bytes, three bytes to four values.
unfoldable pub six_bits : List ℕ → List ℕ
six_bits (a ∷ b ∷ c ∷ rest) =
    a / 4 ∷ ((a % 4) * 16 + b / 16) ∷ ((b % 16) * 4 + c / 64) ∷ c % 64 ∷ six_bits rest
six_bits (a ∷ b ∷ []) = a / 4 ∷ ((a % 4) * 16 + b / 16) ∷ (b % 16) * 4 ∷ []
six_bits (a ∷ []) = a / 4 ∷ (a % 4) * 16 ∷ []
six_bits [] = []

-- The padding of an encoded text.
unfoldable pub padding : List ℕ → Text
padding (a ∷ b ∷ c ∷ rest) = padding rest
padding (a ∷ b ∷ []) = b'=' ∷ []
padding (a ∷ []) = b'=' ∷ b'=' ∷ []
padding [] = []

-- The letter of a value: `-` and `_` for 62 and 63 in the URL-safe alphabet.
unfoldable pub letter : Bool → ℕ → ℕ
letter url v =
    if url && v == 62 then b'-' else if url && v == 63 then b'_' else get_or b64_alphabet v 0

unfoldable pub encode : Bool → Bool → List ℕ → Text
encode url padded bytes =
    map (letter url) (six_bits bytes) ++ (if padded then padding bytes else [])

groups-six_bits : (bytes : List ℕ) → All IsByte bytes → groups (six_bits bytes) ≡ bytes
unfolding groups six_bits
groups-six_bits [] h = refl
groups-six_bits (a ∷ []) h = ap (λ (x : ℕ). x ∷ []) (omega arith)
groups-six_bits (a ∷ b ∷ []) h = ground arith
groups-six_bits (a ∷ b ∷ c ∷ rest) (ha, (hb, (hc, h))) = ground (arith, groups-six_bits rest h)

pub six_bits-IsSextet : (bytes : List ℕ) → All IsByte bytes → All IsSextet (six_bits bytes)
unfolding six_bits
six_bits-IsSextet [] h = tt
six_bits-IsSextet (a ∷ []) h = omega arith
six_bits-IsSextet (a ∷ b ∷ []) h = omega arith
six_bits-IsSextet (a ∷ b ∷ c ∷ rest) (ha, (hb, (hc, h))) =
    (omega arith, (omega arith, (omega arith, (omega arith, six_bits-IsSextet rest h))))

-- Every value is checked: its letter is neither white space nor `=`, and reads back as the value.
is_read : Bool → ℕ → Bool
is_read url v =
    let c = standard_char (letter url v) in
    not (is_space (letter url v)) && not (c == b'=') && or_default (b64_lookup c) 64 == v

letters_read : (url : Bool) → holds_to (is_read url) 64 ≡ true
unfolding holds_to is_read letter standard_char b64_lookup b64_alphabet index_of is_space
letters_read true = refl
letters_read false = refl

record IsRead (url : Bool) (v : ℕ) : Type 0 where
  visible : is_space (letter url v) ≡ false
  letter_ne : standard_char (letter url v) ≢ b'='
  value : b64_lookup (standard_char (letter url v)) ≡ some v

some_of_or_default : (o : Option ℕ) (v : ℕ) → v < 64 → or_default o 64 ≡ v → o ≡ some v
some_of_or_default none v h e = absurd (omega arith)
some_of_or_default (some w) v h e = ap some e

letter-IsRead : (url : Bool) (v : ℕ) → v < 64 → IsRead url v
unfolding is_read
letter-IsRead url v h =
    let t = holds_to-each (is_read url) 64 (letters_read url) v h in
    record {
      visible = ground arith;
      letter_ne = ground arith;
      value = some_of_or_default _ v h (ground arith);
    }

-- The letters of some values, made standard.
abbrev standard : Bool → List ℕ → Text
standard url = map (λ v. standard_char (letter url v))

normalized-letters :
    (url : Bool) (vs : List ℕ) (t : Text)
    → All IsSextet vs
    → normalized (map (letter url) vs ++ t) ≡ standard url vs ++ normalized t
unfolding normalized
normalized-letters url [] t h = refl
normalized-letters url (v ∷ vs) t (p, h) =
    rw ((letter-IsRead url v p).visible)
      (ap (◌∷◌ (standard_char (letter url v))) (normalized-letters url vs t h))

sextets-standard : (url : Bool) (vs : List ℕ) → All IsSextet vs → sextets (standard url vs) ≡ vs
unfolding sextets
sextets-standard url [] h = refl
sextets-standard url (v ∷ vs) (p, h) =
    ground (arith, (letter-IsRead url v p).value, sextets-standard url vs h)

standard-Lacks : (url : Bool) (vs : List ℕ) → All IsSextet vs → Lacks b'=' (standard url vs)
standard-Lacks url [] h = tt
standard-Lacks url (v ∷ vs) (p, h) = ((letter-IsRead url v p).letter_ne, standard-Lacks url vs h)

strip_padding-pad : (t : Text) → all_equals t ≡ true → strip_padding t ≡ []
unfolding strip_padding
strip_padding-pad [] h = refl
strip_padding-pad (c ∷ t) h = ground arith

strip_padding-append :
    (s t : Text) → Lacks b'=' s → all_equals t ≡ true → strip_padding (s ++ t) ≡ s
unfolding strip_padding
strip_padding-append [] t l h = strip_padding-pad t h
strip_padding-append (c ∷ s) t (p, l) h = ground (arith, strip_padding-append s t l h)

padding-equals : (bytes : List ℕ) → all_equals (normalized (padding bytes)) ≡ true
unfolding padding normalized standard_char is_space
padding-equals [] = refl
padding-equals (a ∷ []) = refl
padding-equals (a ∷ b ∷ []) = refl
padding-equals (a ∷ b ∷ c ∷ rest) = padding-equals rest

pad-equals :
    (padded : Bool) (bytes : List ℕ)
    → all_equals (normalized (if padded then padding bytes else [])) ≡ true
unfolding normalized
pad-equals true bytes = padding-equals bytes
pad-equals false bytes = refl

-- Every list of bytes, encoded in the standard or the URL-safe alphabet, with its padding or
-- without, is decoded to the same bytes.
pub base64_to_bytes-encode :
    (url padded : Bool) (bytes : List ℕ)
    → All IsByte bytes
    → base64_to_bytes (encode url padded bytes) ≡ bytes
unfolding encode
base64_to_bytes-encode url padded bytes h =
    let vs = six_bits bytes in
    let small = six_bits-IsSextet bytes h in
    let pad = if padded then padding bytes else [] in
    rw
      (
        base64_to_bytes-sextets (map (letter url) vs ++ pad),
        normalized-letters url vs pad small,
        strip_padding-append (standard url vs) (normalized pad) (standard-Lacks url vs small)
            (pad-equals padded bytes),
        sextets-standard url vs small,
      )
      (groups-six_bits bytes h)
