-- ===== src/Subscription/Base64/Tests.antt =====
-- Runs of src/subscription/base64.ts, and its theorems at concrete inputs.
use react_native_nitro_xray.Prelude.{
  [], arith, codes, false, index_of, is_space, refl, true, ◌∷◌, ◌≡◌,
}
use react_native_nitro_xray.Subscription.Base64.{
  b64_alphabet, b64_lookup, standard_char, normalized, strip_padding, take_sextet, feed,
  decode_from, base64_to_bytes, utf8_loop, utf8_decode, base64_to_string,
}
use react_native_nitro_xray.Subscription.Base64.Groups.{groups, base64_to_bytes-groups}
use react_native_nitro_xray.Subscription.Base64.Letters.{letters}
use react_native_nitro_xray.Subscription.Base64.RoundTrip.{encode, base64_to_bytes-encode}
use react_native_nitro_xray.Subscription.Base64.Utf8.{
  utf8_text, utf16_text, base64_to_string-encode, utf8_decode-fuel,
}

base64 : Unit {0}
unfolding base64_to_string base64_to_bytes utf8_decode b64_lookup b64_alphabet standard_char
    normalized strip_padding take_sextet feed decode_from index_of is_space
base64 = tt

-- "aGk=" with a line break and a stray character, and the URL-safe "8J-YgA" (an emoji).
short : base64_to_string (codes "aG\nk*=") ≡ codes "hi"
unfolding base64
short = refl

emoji : base64_to_string (codes "8J-YgA") ≡ 0xd83d ∷ 0xde00 ∷ []
unfolding base64
emoji = refl

base64_to_bytes-groups_example :
    base64_to_bytes (codes "aG k*=") ≡ groups (letters (codes "aG k*="))
base64_to_bytes-groups_example = base64_to_bytes-groups (codes "aG k*=")

base64_to_bytes-encode_example :
    base64_to_bytes (encode true true (255 ∷ 254 ∷ [])) ≡ 255 ∷ 254 ∷ []
base64_to_bytes-encode_example = base64_to_bytes-encode true true (255 ∷ 254 ∷ []) (omega arith)

base64_to_string-encode_example :
    base64_to_string (encode true false (utf8_text (104 ∷ 0x1f600 ∷ [])))
    ≡ utf16_text (104 ∷ 0x1f600 ∷ [])
base64_to_string-encode_example =
    base64_to_string-encode true false (104 ∷ 0x1f600 ∷ []) (omega arith)

utf8_decode-fuel_example : utf8_loop 9 (0xe2 ∷ 0x82 ∷ []) ≡ utf8_decode (0xe2 ∷ 0x82 ∷ [])
utf8_decode-fuel_example = utf8_decode-fuel 9 (0xe2 ∷ 0x82 ∷ []) (omega arith)
