-- ===== src/Subscription/Base64/Letters.antt =====
-- The letters of a base64 text: what `base64ToBytes` keeps of its input, against RFC 4648.
use react_native_nitro_xray.Prelude.{
  Bool, Bool-cases, List, Option, Text, [], ap, arith, eqb_iff, false, if◌then◌else◌, index_of, inl,
  inr, is_space, leb, ltb, none, not, refl, some, suc, sym, true, zero, ℕ, ◌&&◌, ◌+◌, ◌-◌, ◌<◌,
  ◌==◌, ◌||◌, ◌∙◌, ◌∷◌, ◌≡◌, ◌≢◌, ◌≤◌,
}
use react_native_nitro_xray.Subscription.Base64.{
  b64_lookup, b64_alphabet, standard_char, normalized, all_equals, strip_padding,
}

-- The values of the characters that the alphabet has.
unfoldable pub sextets : Text → List ℕ
sextets [] = []
sextets (c ∷ s) = elim (b64_lookup c) [ none ↦ sextets s | some v ↦ v ∷ sextets s ]

-- RFC 4648, tables 1 and 2: the value of a letter of either alphabet.
unfoldable pub letter_value : ℕ → Option ℕ
letter_value c =
    if leb b'A' c && leb c b'Z'
    then some (c - b'A')
    else if leb b'a' c && leb c b'z'
    then some (c - b'a' + 26)
    else if leb b'0' c && leb c b'9'
    then some (c - b'0' + 52)
    else if c == b'+' || c == b'-'
    then some 62
    else if c == b'/' || c == b'_'
    then some 63
    else none

-- The values of the letters of a text, in their order.
unfoldable pub letters : Text → List ℕ
letters [] = []
letters (c ∷ s) = elim (letter_value c) [ none ↦ letters s | some v ↦ v ∷ letters s ]

unfoldable pub holds_to : (ℕ → Bool) → ℕ → Bool
holds_to test zero = true
holds_to test (suc limit) = holds_to test limit && test limit

pub both : (p q : Bool) → p && q ≡ true → (p ≡ true) × (q ≡ true)
both true q h = (refl, h)
both false q h = cc

pub holds_to-each :
    (test : ℕ → Bool) (limit : ℕ) → holds_to test limit ≡ true → (v : ℕ) → v < limit → test v ≡ true
unfolding holds_to
holds_to-each test zero all v below = absurd (ground arith)
holds_to-each test (suc limit) all v below =
    let (earlier, last) = both (holds_to test limit) (test limit) all in
    elim (Bool-cases (v == limit)) [
      | inl same ↦ rw ((eqb_iff v limit).0 same) last
      | inr other ↦
          let ne : v ≢ limit = λ e. cc ((eqb_iff v limit).1 e) in
          holds_to-each test limit earlier v (ground arith)
    ]

abbrev same : Option ℕ → Option ℕ → Bool
same none none = true
same none (some w) = false
same (some v) none = false
same (some v) (some w) = v == w

same_sound : (o p : Option ℕ) → same o p ≡ true → o ≡ p
same_sound none none h = refl
same_sound none (some w) h = cc h
same_sound (some v) none h = cc h
same_sound (some v) (some w) h = ap some ((eqb_iff v w).0 h)

-- The table of the source agrees with the RFC, and white space is no letter.
is_agreed : ℕ → Bool
is_agreed c =
    same (b64_lookup (standard_char c)) (letter_value c)
    && (not (is_space c) || same (letter_value c) none)

agreed : holds_to is_agreed 128 ≡ true
unfolding holds_to is_agreed letter_value standard_char b64_lookup b64_alphabet index_of is_space
agreed = refl

abbrev all_below : Text → Bool
all_below [] = true
all_below (c ∷ s) = ltb c 128 && all_below s

index_of-big : (c : ℕ) (s : Text) → 128 ≤ c → all_below s ≡ true → index_of c s ≡ none
unfolding index_of
index_of-big c [] big h = refl
index_of-big c (d ∷ s) big h =
    let (small, rest) = both (ltb d 128) (all_below s) h in
    ground (arith, index_of-big c s big rest)

alphabet_below : all_below b64_alphabet ≡ true
unfolding b64_alphabet
alphabet_below = refl

standard_char-big : (c : ℕ) → 128 ≤ c → standard_char c ≡ c
unfolding standard_char
standard_char-big c big = ground arith

letter_value-big : (c : ℕ) → 128 ≤ c → letter_value c ≡ none
unfolding letter_value
letter_value-big c big = ground arith

lookup-big : (c : ℕ) → 128 ≤ c → b64_lookup (standard_char c) ≡ letter_value c
unfolding b64_lookup
lookup-big c big =
    rw (standard_char-big c big, letter_value-big c big)
      (index_of-big c b64_alphabet big alphabet_below)

-- What is known of every character.
record IsAgreed (c : ℕ) : Type 0 where
  value : b64_lookup (standard_char c) ≡ letter_value c
  no_space : is_space c ≡ true → letter_value c ≡ none

char-IsAgreed : (c : ℕ) → IsAgreed c
unfolding is_agreed
char-IsAgreed c = elim (Bool-cases (ltb c 128)) [
  | inl small ↦
      let t = holds_to-each is_agreed 128 agreed c (ground arith) in
      let (one, two) = both _ _ t in
      record { value = same_sound _ _ one; no_space = λ space. same_sound _ _ (rw space at two) }
  | inr big ↦ record {
    value = lookup-big c (ground arith);
    no_space = λ space. letter_value-big c (ground arith);
  }
]

sextets-normalized : (s : Text) → sextets (normalized s) ≡ letters s
unfolding sextets normalized letters
sextets-normalized [] = refl
sextets-normalized (c ∷ s) = elim (Bool-cases (is_space c)) [
  | inl space ↦ ground (arith, (char-IsAgreed c).no_space space, sextets-normalized s)
  | inr other ↦ ground (arith, (char-IsAgreed c).value, sextets-normalized s)
]

lookup_equals : b64_lookup b'=' ≡ none
unfolding b64_lookup b64_alphabet index_of
lookup_equals = refl

sextets-all_equals : (s : Text) → all_equals s ≡ true → sextets s ≡ []
unfolding sextets
sextets-all_equals [] h = refl
sextets-all_equals (c ∷ s) h =
    let (equals, rest) = both (c == b'=') (all_equals s) h in
    rw ((eqb_iff c b'=').0 equals) (rw (lookup_equals, sextets) (sextets-all_equals s rest))

-- Padding is made of no letters.
sextets-strip_padding : (s : Text) → sextets (strip_padding s) ≡ sextets s
unfolding sextets strip_padding
sextets-strip_padding [] = refl
sextets-strip_padding (c ∷ s) = elim (Bool-cases (all_equals (c ∷ s))) [
  | inl padding ↦ rw padding (sym (sextets-all_equals (c ∷ s) padding))
  | inr other ↦
      rw (other, sextets)
        (ap (λ vs. elim (b64_lookup c) [ none ↦ vs | some v ↦ v ∷ vs ]) (sextets-strip_padding s))
]

pub sextets-letters : (input : Text) → sextets (strip_padding (normalized input)) ≡ letters input
sextets-letters input = sextets-strip_padding (normalized input) ∙ sextets-normalized input
