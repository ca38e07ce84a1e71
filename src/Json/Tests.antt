-- ===== src/Json/Tests.antt =====
-- Runs of `JSON.parse`.
use react_native_nitro_xray.Prelude.{[], codes, none, refl, some, text_eq, ◌∷◌, ◌≡◌}
use react_native_nitro_xray.Json.{str, object}
use react_native_nitro_xray.Json.Parse.{
  parse, tokens, read, start, mark, end_of, end_word, word_token, number_token, is_number,
  after_whole, after_fraction, after_exponent, after_digits, skip_digits, accept, accepts,
  want_value, want_key, have_value, put, unescaped,
}
use react_native_nitro_xray.Subscription.UserInfo.{
  unsigned, radix_value, behind_whole, behind_digits, exponent, whole_of, scaled, bounded,
}
use react_native_nitro_xray.Subscription.Numbers.{leading_digits, digits_value}

parsed :
    parse (codes "{ \"a\":[1,-2.5e1,true], \"a\" : {}, \"b\":\"x\\u0041\\n\" }")
    ≡ some (object ((codes "a", object []) ∷ (codes "b", str (120 ∷ 65 ∷ 10 ∷ [])) ∷ []))
unfolding parse tokens read start mark end_of end_word word_token number_token is_number after_whole
    after_fraction after_exponent after_digits skip_digits accept accepts want_value want_key
    have_value put unescaped unsigned radix_value behind_whole behind_digits exponent whole_of
    scaled bounded leading_digits digits_value text_eq
parsed = refl

refused : parse (codes "[01]") ≡ none
unfolding parse tokens read start mark end_of end_word word_token number_token is_number after_whole
    after_fraction after_exponent after_digits skip_digits accept accepts want_value want_key
    have_value put unescaped unsigned radix_value behind_whole behind_digits exponent whole_of
    scaled bounded leading_digits digits_value text_eq
refused = refl
