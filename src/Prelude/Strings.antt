-- ===== src/Prelude/Strings.antt =====
-- JavaScript strings as lists of UTF-16 code units, with the string methods that the sources call.
use Prim.Native.Nat.{◌+◌, ◌<◌, ℕ, suc}
use Prim.Native.Char.{code}
use Prim.Native.String.{String}
use mathlib.Core.Path.{◌≡◌, refl, ap}
use mathlib.Core.Logic.{◌≢◌, ◌↔◌, inl, inr}
use mathlib.Core.Bool.{Bool, true, false, ◌&&◌, ◌||◌}
use mathlib.Core.List.{List, [], ◌∷◌, ◌++◌, map}
use mathlib.Core.Option
use mathlib.Core.Option.{Option, none, some}
use native.Mathlib.Omega.{arith}
use react_native_nitro_xray.Prelude.Tests.{leb, ◌==◌, if◌then◌else◌, eqb_iff, Bool-cases}
use react_native_nitro_xray.Prelude.Lists.{length, All, take, drop}

abbrev pub Text : Type 0
Text = List ℕ

-- The code units of an ASCII literal.
abbrev pub codes : String → Text
codes String.[] = []
codes (String.◌∷◌ c s) = code c ∷ codes s

-- `a === b` on strings.
unfoldable pub text_eq : Text → Text → Bool
text_eq [] [] = true
text_eq (c ∷ s) (d ∷ t) = (c == d) && text_eq s t
text_eq _ _ = false

pub text_eq_sound : (s t : Text) → text_eq s t ≡ true → s ≡ t
unfolding text_eq
text_eq_sound [] [] h = refl
text_eq_sound (c ∷ s) (d ∷ t) h = ground (arith, text_eq_sound s t)
text_eq_sound [] (d ∷ t) h = cc
text_eq_sound (c ∷ s) [] h = cc

pub text_eq_refl : (s : Text) → text_eq s s ≡ true
unfolding text_eq
text_eq_refl [] = refl
text_eq_refl (c ∷ s) = ground (arith, text_eq_refl s)

-- `s.indexOf(c)` for a text of one unit; -1 is `none`.
unfoldable pub index_of : ℕ → Text → Option ℕ
index_of c [] = none
index_of c (d ∷ s) = if d == c then some 0 else Option.map suc (index_of c s)

-- The white space of `\s` and of `trim`.
unfoldable pub is_space : ℕ → Bool
is_space c =
    (leb 9 c && leb c 13)
    || c == 32
    || c == 160
    || c == 0x1680
    || (leb 0x2000 c && leb c 0x200a)
    || c == 0x2028
    || c == 0x2029
    || c == 0x202f
    || c == 0x205f
    || c == 0x3000
    || c == 0xfeff

abbrev pub Lacks : ℕ → Text → Type 0
Lacks c = All (λ d. d ≢ c)

pub index_of-append : (c : ℕ) (s t : Text) → Lacks c s → index_of c (s ++ c ∷ t) ≡ some (length s)
unfolding index_of
index_of-append c [] t h = ground arith
index_of-append c (d ∷ s) t (p, h) = ground (arith, index_of-append c s t h)

pub text_eq_iff : (s t : Text) → (text_eq s t ≡ true) ↔ (s ≡ t)
text_eq_iff s t = (text_eq_sound s t, λ e. rw e (text_eq_refl t))

-- Where the first `c` stands: none before it, and the text is the two parts around it.
pub record Splits (c : ℕ) (s : Text) (i : ℕ) : Type 0 where
  pub parts : s ≡ take i s ++ c ∷ drop (suc i) s
  pub before : Lacks c (take i s)
  pub at : length (take i s) ≡ i

pub index_of_sound : (c : ℕ) (s : Text) (i : ℕ) → index_of c s ≡ some i → Splits c s i
unfolding index_of
index_of_sound c [] i h = cc
index_of_sound c (d ∷ s) i h = elim (Bool-cases (d == c)) [
  | inl same ↦
      let e : i ≡ 0 = ground arith in
      rw e (record { parts = ap (λ x. x ∷ s) ((eqb_iff d c).0 same); before = tt; at = refl })
  | inr other ↦
      let (j, found, e) = (Option.map-eq-some_iff _ _).0 (rw other at h) in
      let r = index_of_sound c s j found in
      rw (← e) (record {
        parts = ap (◌∷◌ d) r.parts;
        before = (λ q. cc ((eqb_iff d c).1 q), r.before);
        at = ap suc r.at;
      })
]

-- A position in the tail is one less.
lt_of_tail : {n i : ℕ} (j : ℕ) → j < n → suc j ≡ i → i < suc n
lt_of_tail j h e = omega arith

pub index_of-lt-length : (c : ℕ) (s : Text) (i : ℕ) → index_of c s ≡ some i → i < length s
unfolding index_of
index_of-lt-length c [] i h = cc
index_of-lt-length c (d ∷ s) i h = elim (Bool-cases (d == c)) [
  | inl same ↦ let e : i ≡ 0 = ground arith in omega arith
  | inr other ↦
      let (j, found, e) = (Option.map-eq-some_iff _ _).0 (rw other at h) in
      lt_of_tail j (index_of-lt-length c s j found) e
]

-- A string as a condition: `undefined` and `''` are false.
abbrev pub truthy : Option Text → Option Text
truthy none = none
truthy (some []) = none
truthy (some (c ∷ t)) = some (c ∷ t)

unfoldable pub last_index_of : ℕ → Text → Option ℕ
last_index_of c [] = none
last_index_of c (d ∷ s) = elim (last_index_of c s) [
  | some i ↦ some (suc i)
  | none ↦ if d == c then some 0 else none
]

-- `s.split(c)` for a text of one unit.
unfoldable pub split : ℕ → Text → List Text
split c [] = [] ∷ []
split c (d ∷ s) = if d == c then [] ∷ split c s else head_cons d (split c s)
  where
    head_cons : ℕ → List Text → List Text
    head_cons d [] = (d ∷ []) ∷ []
    head_cons d (s ∷ ss) = (d ∷ s) ∷ ss

unfoldable pub trim_start : Text → Text
trim_start [] = []
trim_start (c ∷ s) = if is_space c then trim_start s else c ∷ s

unfoldable pub trim_end : Text → Text
trim_end [] = []
trim_end (c ∷ s) = elim (trim_end s) [ [] ↦ if is_space c then [] else c ∷ [] | d ∷ t ↦ c ∷ d ∷ t ]

unfoldable pub trim : Text → Text
trim s = trim_end (trim_start s)

-- `s.toLowerCase()` on ASCII letters.
unfoldable pub lower : Text → Text
lower s = map (λ c. if leb b'A' c && leb c b'Z' then c + 32 else c) s
