-- ===== src/Subscription/Uri.antt =====
-- `decodeURIComponent` on UTF-16 units.
use react_native_nitro_xray.Prelude.{
  Bool, List, Option, Text, [], false, if◌then◌else◌, leb, ltb, none, not, some, true, ℕ, ◌%◌, ◌&&◌,
  ◌*◌, ◌++◌, ◌+◌, ◌-◌, ◌/◌, ◌==◌, ◌∷◌,
}
use react_native_nitro_xray.Json.{◌>>=◌}

unfoldable pub hex_value : ℕ → Option ℕ
hex_value c =
    if leb b'0' c && leb c b'9'
    then some (c - b'0')
    else if leb b'a' c && leb c b'f'
    then some (c - b'a' + 10)
    else if leb b'A' c && leb c b'F'
    then some (c - b'A' + 10)
    else none

-- A unit of the input, or a byte that is written `%XX`.
pub data Piece : Type 0 where
  plain : ℕ → Piece
  byte : ℕ → Piece

abbrev pub hex_byte : ℕ → ℕ → Option Piece
hex_byte a b = hex_value a >>= (λ h. hex_value b >>= (λ l. some (byte (h * 16 + l))))

-- `none` where a `%` has no two hexadecimal digits behind it.
unfoldable pub pieces : Text → Option (List Piece)
pieces [] = some []
pieces (c ∷ []) = if c == b'%' then none else some (plain c ∷ [])
pieces (c ∷ a ∷ []) = if c == b'%' then none else pieces (a ∷ []) >>= (λ ps. some (plain c ∷ ps))
pieces (c ∷ a ∷ b ∷ s) = elim (c == b'%') [
  | true ↦ hex_byte a b >>= (λ p. pieces s >>= (λ ps. some (p ∷ ps)))
  | false ↦ pieces (a ∷ b ∷ s) >>= (λ ps. some (plain c ∷ ps))
]

-- The six bits of a continuation byte.
unfoldable pub continuation : ℕ → Option ℕ
continuation b = if b / 64 == 2 then some (b % 64) else none

abbrev pub units_of : ℕ → Text
units_of c =
    if ltb c 0x10000
    then c ∷ []
    else (0xd800 + (c - 0x10000) / 1024) ∷ (0xdc00 + (c - 0x10000) % 1024) ∷ []

-- Between two code points, or in one: how many bytes are missing, the bits so far, and the least code
-- point that needs so many bytes.
pub data Progress : Type 0 where
  idle : Progress
  inside : (missing bits least : ℕ) → Progress

unfoldable pub lead : ℕ → Option Progress
lead b =
    if ltb b 0xc0
    then none
    else if ltb b 0xe0
    then some (inside 1 (b % 32) 0x80)
    else if ltb b 0xf0
    then some (inside 2 (b % 16) 0x800)
    else if ltb b 0xf8
    then some (inside 3 (b % 8) 0x10000)
    else none

-- The code point is not overlong, no surrogate, and not too large.
abbrev pub is_valid : ℕ → ℕ → Bool
is_valid least c = leb least c && ltb c 0x110000 && not (leb 0xd800 c && leb c 0xdfff)

-- The units of the pieces; `none` where the bytes are not UTF-8.
unfoldable pub units : Progress → List Piece → Option Text
units idle [] = some []
units idle (plain c ∷ ps) = units idle ps >>= (λ t. some (c ∷ t))
units idle (byte b ∷ ps) = elim (ltb b 0x80) [
  | true ↦ units idle ps >>= (λ t. some (b ∷ t))
  | false ↦ lead b >>= (λ p. units p ps)
]
units (inside missing bits least) [] = none
units (inside missing bits least) (plain c ∷ ps) = none
units (inside missing bits least) (byte b ∷ ps) = continuation b >>= (λ c. elim (leb missing 1) [
  | false ↦ units (inside (missing - 1) (bits * 64 + c) least) ps
  | true ↦ elim (is_valid least (bits * 64 + c)) [
    | true ↦ units idle ps >>= (λ t. some (units_of (bits * 64 + c) ++ t))
    | false ↦ none
  ]
])

unfoldable pub decode_uri_component : Text → Option Text
decode_uri_component s = pieces s >>= units idle
