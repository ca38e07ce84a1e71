-- ===== src/Json/Words.antt =====
-- A literal or a number, as `JSON.stringify` writes it, is read as one token.
pub mod Numbers
pub mod Decimals
pub mod Printed
use react_native_nitro_xray.Prelude.{
  [], All, Bool, List, Option, Text, ap, append-nil, false, is_some, none, refl, some, true, ℕ,
  ◌++◌, ◌==◌, ◌||◌, ◌∙◌, ◌∷◌, ◌≡◌,
}
use react_native_nitro_xray.Json.{◌>>=◌}
use react_native_nitro_xray.Json.Parse.{
  Token, Mode, between, word, reversed, read, tokens, start, mark, white, ends_word, end_word,
  end_of, word_token,
}
use react_native_nitro_xray.Json.Strings.{before, tokens-silent}
use react_native_nitro_xray.Json.Strings.Quoted.{reversed-reversed}

-- What may follow a word: nothing, or a unit that ends it.
abbrev pub Ends : Text → Type 0
Ends [] = Unit
Ends (c ∷ s) = ends_word c ≡ true

abbrev pub InWord : ℕ → Type 0
InWord c = ends_word c ≡ false

or_parts : (a b : Bool) → a || b ≡ false → (a ≡ false) × (b ≡ false)
or_parts true b h = cc
or_parts false b h = (refl, h)

is_some_parts : {A : Type 0} (o : Option A) → is_some o ≡ false → o ≡ none
is_some_parts none h = refl
is_some_parts (some a) h = cc

read-start : (c : ℕ) → InWord c → read between c ≡ some ([], word (c ∷ []))
unfolding read start
read-start c h =
    let (a, m) = or_parts (white c || c == b'"') (is_some (mark c)) h in
    let (w, q) = or_parts (white c) (c == b'"') a in rw (w, q, is_some_parts (mark c) m, start) refl

read-word : (c : ℕ) (acc : Text) → InWord c → read (word acc) c ≡ some ([], word (c ∷ acc))
unfolding read
read-word c acc h = rw h refl

tokens-InWord :
    (w acc rest : Text)
    → All InWord w
    → tokens (word acc) (w ++ rest) ≡ tokens (word (reversed w acc)) rest
tokens-InWord [] acc rest h = refl
tokens-InWord (c ∷ w) acc rest (h, hs) =
    tokens-silent (word acc) (word (c ∷ acc)) c (w ++ rest) (read-word c acc h)
    ∙ tokens-InWord w (c ∷ acc) rest hs

started :
    (t : Token) (o : Option (List Token × Mode)) (s : Text)
    → ◌>>=◌ {B = List Token × Mode} o (λ next. some (t ∷ next.0, next.1))
        >>= (λ next. before next.0 (tokens next.1 s))
      ≡ before (t ∷ []) (o >>= λ next. before next.0 (tokens next.1 s))
started t none s = refl
started t (some (ts, mode)) s = before-cons t ts (tokens mode s)
  where
    before-cons :
        (t : Token) (ts : List Token) (o : Option (List Token))
        → before (t ∷ ts) o ≡ before (t ∷ []) (before ts o)
    before-cons t ts none = refl
    before-cons t ts (some more) = refl

end_of-word :
    (acc rest : Text) (t : Token)
    → Ends rest
    → word_token (reversed acc []) ≡ some t
    → tokens (word acc) rest ≡ before (t ∷ []) (tokens between rest)
unfolding tokens read end_of end_word
end_of-word acc [] t h e = rw e refl
end_of-word acc (c ∷ rest) t h e = rw (h, e) (started t (start c) rest)

-- A word before a text that ends it.
pub tokens-word :
    (w rest : Text) (t : Token)
    → All InWord w
    → Ends rest
    → word_token w ≡ some t
    → tokens between (w ++ rest) ≡ before (t ∷ []) (tokens between rest)
unfolding word_token
tokens-word [] rest t h k e = cc
tokens-word (c ∷ w) rest t (h, hs) k e =
    tokens-silent between (word (c ∷ [])) c (w ++ rest) (read-start c h)
    ∙ (tokens-InWord w (c ∷ []) rest hs
        ∙ end_of-word (reversed w (c ∷ [])) rest t k
            (ap word_token (reversed-reversed w (c ∷ []) [] ∙ ap (◌∷◌ c) (append-nil w)) ∙ e))
