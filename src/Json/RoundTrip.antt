-- ===== src/Json/RoundTrip.antt =====
-- `JSON.parse` reads back what `JSON.stringify` writes.
use react_native_nitro_xray.Prelude.{
  [], ap, append-nil, refl, some, ◌∙◌, ◌≡◌, [], ap, append-nil, refl, some, sym, ◌∙◌, ◌≡◌,
}
use react_native_nitro_xray.Json.{Json, ◌>>=◌}
use react_native_nitro_xray.Json.Print.{stringify}
use react_native_nitro_xray.Json.Parse.{between, tokens, end_of, a_value, have, accepts, parse}
use react_native_nitro_xray.Json.Reading.{IsPlain, value_tokens}
use react_native_nitro_xray.Json.Reading.Building.{accepts-value_tokens}
use react_native_nitro_xray.Json.Reading.Lexing.{stringify-Lexes}

tokens-stringify : (j : Json) → IsPlain j → tokens between (stringify j) ≡ some (value_tokens j)
unfolding tokens end_of
tokens-stringify j h =
    ap (tokens between) (sym (append-nil (stringify j)))
    ∙ (stringify-Lexes j [] h tt ∙ ap some (append-nil (value_tokens j)))

accepts-one : (j : Json) → accepts (have j, []) [] ≡ some j
unfolding accepts
accepts-one j = refl

-- A value is read back from the text that is written for it, when its numbers are finite, are no -0, and
-- are written without an exponent and with no zero at the end of a fraction, and no object has a key twice.
pub parse-stringify : (j : Json) → IsPlain j → parse (stringify j) ≡ some j
unfolding parse
parse-stringify j h =
    ap (λ o. o >>= accepts (a_value, [])) (tokens-stringify j h)
    ∙ (ap (accepts (a_value, [])) (sym (append-nil (value_tokens j)))
        ∙ (accepts-value_tokens j [] [] h ∙ accepts-one j))
