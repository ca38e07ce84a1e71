-- ===== src/Json/Strings/Quoted.antt =====
-- The text of a string, as `JSON.stringify` writes it, is read as one token.
use react_native_nitro_xray.Prelude.{
  Bool, Bool-cases, Option, Text, [], ap, append-nil, append_assoc, arith, eqb_iff, false,
  if◌then◌else◌, inl, inr, ltb, or_default, refl, some, true, ℕ, ◌&&◌, ◌++◌, ◌==◌, ◌||◌, ◌∙◌, ◌∷◌,
  ◌≡◌,
}
use react_native_nitro_xray.Json.{str}
use react_native_nitro_xray.Json.Print.{escaped, is_high, is_low, single, quoted, string_text}
use react_native_nitro_xray.Json.Parse.{
  value, Mode, between, reversed, read, unescaped, tokens, start,
}
use react_native_nitro_xray.Json.Strings.{
  before, tokens-cons, tokens-silent, Reads, plain-Reads, escape-Reads, unicode_escape-Reads,
}

-- The branches of a test.
branch-Reads :
    (b : Bool) (p q : Option Text) (c : ℕ)
    → (b ≡ true → Reads c (or_default p (c ∷ [])))
    → (b ≡ false → Reads c (or_default q (c ∷ [])))
    → Reads c (or_default (if b then p else q) (c ∷ []))
branch-Reads true p q c f g = f refl
branch-Reads false p q c f g = g refl

letter-Reads :
    (c d e : ℕ)
    → (e == b'u') ≡ false
    → unescaped e ≡ some d
    → (c == d) ≡ true
    → Reads c (b'\\' ∷ e ∷ [])
letter-Reads c d e u h same = rw ((eqb_iff c d).0 same) (escape-Reads e d u h)

escaped-Reads : (c : ℕ) → Reads c (or_default (escaped c) (c ∷ []))
unfolding escaped unescaped
escaped-Reads c = branch-Reads (c == b'"') _ _ c (letter-Reads c b'"' b'"' refl refl) λ q.
    branch-Reads (c == b'\\') _ _ c (letter-Reads c b'\\' b'\\' refl refl) λ b.
      branch-Reads (c == 8) _ _ c (letter-Reads c 8 b'b' refl refl) λ _.
        branch-Reads (c == 12) _ _ c (letter-Reads c 12 b'f' refl refl) λ _.
          branch-Reads (c == 10) _ _ c (letter-Reads c 10 b'n' refl refl) λ _.
            branch-Reads (c == 13) _ _ c (letter-Reads c 13 b'r' refl refl) λ _.
              branch-Reads (c == 9) _ _ c (letter-Reads c 9 b't' refl refl) λ _.
                branch-Reads (ltb c 32) _ _ c (λ l. unicode_escape-Reads c (ground (arith, l)))
                  (λ l. plain-Reads c q b l)

single-Reads : (c : ℕ) → Reads c (single c)
single-Reads c = elim (Bool-cases (is_high c || is_low c)) [
  | inl half ↦ rw half (unicode_escape-Reads c (ground (arith, half)))
  | inr whole ↦ rw whole (escaped-Reads c)
]

-- A unit of a pair is plain.
high-Reads : (c : ℕ) → is_high c ≡ true → Reads c (c ∷ [])
high-Reads c h = plain-Reads c (ground (arith, h)) (ground (arith, h)) (ground (arith, h))

low-Reads : (c : ℕ) → is_low c ≡ true → Reads c (c ∷ [])
low-Reads c h = plain-Reads c (ground (arith, h)) (ground (arith, h)) (ground (arith, h))

pair_parts : (a b : Bool) → a && b ≡ true → (a ≡ true) × (b ≡ true)
pair_parts true true h = (refl, refl)
pair_parts true false h = cc
pair_parts false b h = cc

-- All units of a string, the last one first in the accumulator.
quoted-Reads :
    (s acc rest : Text)
    → tokens (Mode.quoted acc) (quoted s ++ rest) ≡ tokens (Mode.quoted (reversed s acc)) rest
unfolding quoted
quoted-Reads [] acc rest = refl
quoted-Reads (c ∷ []) acc rest = single-Reads c acc rest
quoted-Reads (c ∷ d ∷ s) acc rest = elim (Bool-cases (is_high c && is_low d)) [
  | inl pair ↦
      let (high, low) = pair_parts (is_high c) (is_low d) pair in
      rw (pair, quoted)
        (high-Reads c high acc (d ∷ (quoted s ++ rest))
          ∙ (low-Reads d low (c ∷ acc) (quoted s ++ rest) ∙ quoted-Reads s (d ∷ c ∷ acc) rest))
  | inr alone ↦
      rw (alone, quoted)
        (ap (λ t. tokens (Mode.quoted acc) t) (append_assoc (single c) (quoted (d ∷ s)) rest)
          ∙ (single-Reads c acc (quoted (d ∷ s) ++ rest) ∙ quoted-Reads (d ∷ s) (c ∷ acc) rest))
]

pub reversed-reversed : (s acc t : Text) → reversed (reversed s acc) t ≡ reversed acc (s ++ t)
reversed-reversed [] acc t = refl
reversed-reversed (c ∷ s) acc t = reversed-reversed s (c ∷ acc) t

read-open : read between b'"' ≡ some ([], Mode.quoted [])
unfolding read start
read-open = refl

read-close :
    (acc : Text) → read (Mode.quoted acc) b'"' ≡ some (value (str (reversed acc [])) ∷ [], between)
unfolding read
read-close acc = refl

-- A printed string is one token.
pub tokens-string_text :
    (s rest : Text)
    → tokens between (string_text s ++ rest) ≡ before (value (str s) ∷ []) (tokens between rest)
unfolding string_text
tokens-string_text s rest =
    tokens-silent between (Mode.quoted []) b'"' _ read-open
    ∙ (ap (λ t. tokens (Mode.quoted []) t) (append_assoc (quoted s) (b'"' ∷ []) rest)
        ∙ (quoted-Reads s [] (b'"' ∷ rest)
            ∙ (tokens-cons _ between b'"' _ rest (read-close (reversed s []))
                ∙ ap (λ t. before (value (str t) ∷ []) (tokens between rest))
                    (reversed-reversed s [] [] ∙ append-nil s))))
