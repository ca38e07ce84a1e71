-- ===== src/Subscription/Base64/Utf8.antt =====
-- `utf8Decode` against the encoding of RFC 3629, and `base64ToString` over both.
use react_native_nitro_xray.Prelude.{
  List, Text, [], arith, drop, if◌then◌else◌, length, ltb, refl, suc, zero, ℕ, ◌%◌, ◌++◌, ◌+◌, ◌-◌,
  ◌/◌, ◌<◌, ◌∷◌, ◌≡◌, ◌≤◌, All, length-append, Bool, ◌∙◌, ap, All-append,
}
use react_native_nitro_xray.Subscription.Base64.{utf8_loop, utf8_decode, base64_to_string}
use react_native_nitro_xray.Subscription.Base64.RoundTrip.{IsByte, encode, base64_to_bytes-encode}

-- The bytes of a code point.
unfoldable pub utf8_bytes : ℕ → List ℕ
utf8_bytes c =
    if ltb c 0x80
    then c ∷ []
    else if ltb c 0x800
    then (0xc0 + c / 64) ∷ (0x80 + c % 64) ∷ []
    else if ltb c 0x10000
    then (0xe0 + c / 4096) ∷ (0x80 + (c / 64) % 64) ∷ (0x80 + c % 64) ∷ []
    else (0xf0 + c / 262144)
      ∷ (0x80 + (c / 4096) % 64)
      ∷ (0x80 + (c / 64) % 64)
      ∷ (0x80 + c % 64)
      ∷ []

-- Its UTF-16 units.
unfoldable pub utf16_units : ℕ → Text
utf16_units c =
    if ltb c 0x10000
    then c ∷ []
    else (0xd800 + (c - 0x10000) / 1024) ∷ (0xdc00 + (c - 0x10000) % 1024) ∷ []

unfoldable pub utf8_text : List ℕ → List ℕ
utf8_text [] = []
utf8_text (c ∷ cs) = utf8_bytes c ++ utf8_text cs

unfoldable pub utf16_text : List ℕ → Text
utf16_text [] = []
utf16_text (c ∷ cs) = utf16_units c ++ utf16_text cs

abbrev pub IsCodePoint : ℕ → Type 0
IsCodePoint c = c < 0x110000

length-drop : (n : ℕ) (l : List ℕ) → length (drop n l) ≤ length l
length-drop zero l = omega arith
length-drop (suc n) [] = omega arith
length-drop (suc n) (x ∷ l) = omega (arith, length-drop n l)

-- A loop with enough fuel has the result of any other with enough fuel.
utf8_loop-fuel :
    (f g : ℕ) (bytes : List ℕ)
    → length bytes ≤ f
    → length bytes ≤ g
    → utf8_loop f bytes ≡ utf8_loop g bytes
unfolding utf8_loop
utf8_loop-fuel zero zero bytes h k = refl
utf8_loop-fuel zero (suc g) [] h k = refl
utf8_loop-fuel zero (suc g) (b ∷ bytes) h k = absurd (omega arith)
utf8_loop-fuel (suc f) zero [] h k = refl
utf8_loop-fuel (suc f) zero (b ∷ bytes) h k = absurd (omega arith)
utf8_loop-fuel (suc f) (suc g) [] h k = refl
utf8_loop-fuel (suc f) (suc g) (b ∷ bytes) h k =
    let d1 = length-drop 1 bytes in
    let d2 = length-drop 2 bytes in
    let d3 = length-drop 3 bytes in
    let e0 = utf8_loop-fuel f g bytes (omega arith) (omega arith) in
    let e1 = utf8_loop-fuel f g (drop 1 bytes) (omega arith) (omega arith) in
    let e2 = utf8_loop-fuel f g (drop 2 bytes) (omega arith) (omega arith) in
    let e3 = utf8_loop-fuel f g (drop 3 bytes) (omega arith) (omega arith) in
    rw (e0, e1, e2, e3) refl

-- One round of the loop, for each length of a code point's bytes.
module _ (f : ℕ) (rest : List ℕ) (c : ℕ) where
  loop_one : c < 0x80 → utf8_loop (suc f) (c ∷ rest) ≡ c ∷ utf8_loop f rest
  unfolding utf8_loop
  loop_one h = ground arith

  loop_two :
      0x80 ≤ c
      → c < 0x800
      → utf8_loop (suc f) ((0xc0 + c / 64) ∷ (0x80 + c % 64) ∷ rest) ≡ c ∷ utf8_loop f rest
  unfolding utf8_loop
  loop_two h k = ground arith

  loop_three :
      0x800 ≤ c
      → c < 0x10000
      → utf8_loop (suc f) ((0xe0 + c / 4096) ∷ (0x80 + (c / 64) % 64) ∷ (0x80 + c % 64) ∷ rest)
        ≡ c ∷ utf8_loop f rest
  unfolding utf8_loop
  loop_three h k = ground arith

  loop_four :
      0x10000 ≤ c
      → c < 0x110000
      → utf8_loop (suc f) (
          (0xf0 + c / 262144)
          ∷ (0x80 + (c / 4096) % 64)
          ∷ (0x80 + (c / 64) % 64)
          ∷ (0x80 + c % 64)
          ∷ rest)
        ≡ (0xd800 + (c - 0x10000) / 1024) ∷ (0xdc00 + (c - 0x10000) % 1024) ∷ utf8_loop f rest
  unfolding utf8_loop
  loop_four h k = ground arith

loop_point :
    (f : ℕ) (rest : List ℕ) (c : ℕ)
    → IsCodePoint c
    → utf8_loop (suc f) (utf8_bytes c ++ rest) ≡ utf16_units c ++ utf8_loop f rest
unfolding utf8_bytes utf16_units
loop_point f rest c h =
    ground (arith, loop_one f rest c, loop_two f rest c, loop_three f rest c, loop_four f rest c)

pub length-utf8_bytes : (c : ℕ) → 1 ≤ length (utf8_bytes c)
unfolding utf8_bytes
length-utf8_bytes c = ground arith

loop_nil : (f : ℕ) → utf8_loop f [] ≡ []
unfolding utf8_loop
loop_nil zero = refl
loop_nil (suc f) = refl

loop-utf8_text :
    (f : ℕ) (cs : List ℕ)
    → All IsCodePoint cs
    → length (utf8_text cs) ≤ f
    → utf8_loop f (utf8_text cs) ≡ utf16_text cs
unfolding utf8_text utf16_text
loop-utf8_text f [] h k = loop_nil f
loop-utf8_text zero (c ∷ cs) h k =
    absurd (omega (arith, length-utf8_bytes c, length-append (utf8_bytes c) (utf8_text cs)))
loop-utf8_text (suc f) (c ∷ cs) (p, h) k =
    loop_point f (utf8_text cs) c p
    ∙ ap (λ t. utf16_units c ++ t)
        (loop-utf8_text f cs h
          (omega (arith, length-utf8_bytes c, length-append (utf8_bytes c) (utf8_text cs))))

pub utf8_decode-utf8_text :
    (cs : List ℕ) → All IsCodePoint cs → utf8_decode (utf8_text cs) ≡ utf16_text cs
unfolding utf8_decode
utf8_decode-utf8_text cs h = loop-utf8_text (length (utf8_text cs)) cs h (omega arith)

-- The loop ends: with fuel for one round for each byte, or with any more, the result is the same, for
-- bytes that are valid UTF-8 or not.
pub utf8_decode-fuel :
    (f : ℕ) (bytes : List ℕ) → length bytes ≤ f → utf8_loop f bytes ≡ utf8_decode bytes
unfolding utf8_decode
utf8_decode-fuel f bytes h = utf8_loop-fuel f (length bytes) bytes h (omega arith)

utf8_bytes-IsByte : (c : ℕ) → IsCodePoint c → All IsByte (utf8_bytes c)
unfolding utf8_bytes
utf8_bytes-IsByte c h = ground arith

pub utf8_text-IsByte : (cs : List ℕ) → All IsCodePoint cs → All IsByte (utf8_text cs)
unfolding utf8_text
utf8_text-IsByte [] h = tt
utf8_text-IsByte (c ∷ cs) (p, h) =
    All-append IsByte (utf8_bytes c) (utf8_text cs) (utf8_bytes-IsByte c p) (utf8_text-IsByte cs h)

-- Every list of code points, written in UTF-8 and encoded in either alphabet, padded or not, is read
-- as its UTF-16 text, with surrogate pairs above the basic plane.
pub base64_to_string-encode :
    (url padded : Bool) (cs : List ℕ)
    → All IsCodePoint cs
    → base64_to_string (encode url padded (utf8_text cs)) ≡ utf16_text cs
unfolding base64_to_string
base64_to_string-encode url padded cs h =
    rw (base64_to_bytes-encode url padded (utf8_text cs) (utf8_text-IsByte cs h))
      (utf8_decode-utf8_text cs h)
