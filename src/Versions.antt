-- ===== src/Versions.antt =====
-- src/versions/parse.ts: the versions that the Go modules of the native artifacts name.
pub mod Matching
pub mod Display
pub mod Generator
pub mod Agreement
pub mod Entry
mod Tests
use react_native_nitro_xray.Prelude.{
  [], Bool, List, Option, Text, drop, false, if◌then◌else◌, leb, none, replicate, some, take, true,
  ℕ, ◌%◌, ◌&&◌, ◌++◌, ◌==◌, ◌||◌, ◌∷◌,
}
use react_native_nitro_xray.Subscription.Numbers.{leading_digits, digits_value, whole_text}

-- A class of code units, `\d` and the others of the two expressions.
abbrev pub Class : Type 0
Class = ℕ → Bool

abbrev pub digit : Class
digit c = leb b'0' c && leb c b'9'

abbrev pub hex : Class
hex c = digit c || (leb b'a' c && leb c b'f')

-- `[-.]`
abbrev pub separator : Class
separator c = c == b'-' || c == b'.'

abbrev pub literal : ℕ → Class
literal c d = d == c

-- What is left of a text behind one unit of each class.
unfoldable pub matches : List Class → Text → Option Text
matches [] s = some s
matches (p ∷ ps) [] = none
matches (p ∷ ps) (c ∷ s) = if p c then matches ps s else none

-- `^\d+$`
unfoldable pub all_digits : Text → Bool
all_digits [] = true
all_digits (c ∷ s) = digit c && all_digits s

abbrev pub some_digits : Text → Bool
some_digits [] = false
some_digits (c ∷ s) = all_digits (c ∷ s)

-- `^v1\.(\d{2})(\d{2})(\d{2})\.`
abbrev pub tag_classes : List Class
tag_classes = literal b'v' ∷ literal b'1' ∷ literal b'.' ∷ (replicate 6 digit ++ literal b'.' ∷ [])

-- The three groups of the first expression, as one text of six digits.
unfoldable pub tag_groups : Text → Option Text → Option Text
tag_groups s none = none
tag_groups s (some rest) = if some_digits rest then some (take 6 (drop 3 s)) else none

unfoldable pub tagged : Text → Option Text
tagged s = tag_groups s (matches tag_classes s)

-- `[-.](\d{4})(\d{2})(\d{2})\d{6}-([0-9a-f]{12})$`
abbrev pub pseudo_classes : List Class
pseudo_classes = separator ∷ (replicate 14 digit ++ literal b'-' ∷ replicate 12 hex)

abbrev pub at_end : Option Text → Bool
at_end (some []) = true
at_end _ = false

abbrev pub ends : Text → Bool
ends s = at_end (matches pseudo_classes s)

-- The match starts at the first place where it can.
unfoldable pub pseudo : Text → Option Text
pseudo [] = none
pseudo (c ∷ s) = if ends (c ∷ s) then some (c ∷ s) else pseudo s

-- `Number(group)`
abbrev pub number : Text → ℕ
number group = digits_value 0 (leading_digits group)

unfoldable pub dotted : ℕ → ℕ → ℕ → Text
dotted y m d = whole_text y ++ b'.' ∷ whole_text m ++ b'.' ∷ whole_text d

unfoldable pub xray_display_version : Text → Option Text
xray_display_version s = elim (tagged s) [
  | some groups ↦
      some
        (dotted (number (take 2 groups)) (number (take 2 (drop 2 groups))) (number (drop 4 groups)))
  | none ↦ elim (pseudo s) [
    | some found ↦ some (
        dotted (number (take 4 (drop 1 found)) % 100) (number (take 2 (drop 5 found)))
          (number (take 2 (drop 7 found))))
    | none ↦ none
  ]
]

pub record PseudoVersionIdentity : Type 0 where
  pub commit : Text
  pub date : Text

unfoldable pub pseudo_version_identity : Text → PseudoVersionIdentity
pseudo_version_identity s = elim (pseudo s) [
  | none ↦ record { commit = s; date = [] }
  | some found ↦ record {
    commit = take 7 (drop 16 found);
    date = take 4 (drop 1 found) ++ b'-' ∷ take 2 (drop 5 found) ++ b'-' ∷ take 2 (drop 7 found);
  }
]
