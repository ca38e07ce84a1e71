-- ===== src/Subscription/Base64.antt =====
-- src/subscription/base64.ts: base64 to bytes, and bytes to a string. A byte is a number below 256,
-- an `Int32` is its bit pattern below 2^32.
pub mod Letters
pub mod Groups
pub mod RoundTrip
pub mod Utf8
mod Tests
use react_native_nitro_xray.Prelude.{
  [], Bool, List, Option, Text, codes, drop, get_or, if◌then◌else◌, index_of, is_space, leb, length,
  ltb, none, replicate, set, some, suc, take, true, zero, ℕ, ◌%◌, ◌&&◌, ◌*◌, ◌+◌, ◌-◌, ◌/◌, ◌==◌,
  ◌^◌, ◌∷◌,
}

unfoldable pub b64_alphabet : Text
b64_alphabet = codes "ABCDEFGHIJKLMNOPQRSTUVWXYZabcdefghijklmnopqrstuvwxyz0123456789+/"

-- `B64_LOOKUP[c]`: the position of the character in the alphabet.
unfoldable pub b64_lookup : ℕ → Option ℕ
b64_lookup c = index_of c b64_alphabet

-- `replace(/-/g, '+').replace(/_/g, '/')` at one character.
unfoldable pub standard_char : ℕ → ℕ
standard_char c = if c == b'-' then b'+' else if c == b'_' then b'/' else c

-- The three replacements: URL-safe letters become standard ones, and white space is dropped.
unfoldable pub normalized : Text → Text
normalized [] = []
normalized (c ∷ s) = let rest = normalized s in if is_space c then rest else standard_char c ∷ rest

abbrev pub all_equals : Text → Bool
all_equals [] = true
all_equals (c ∷ s) = c == b'=' && all_equals s

-- `replace(/=+$/, '')`.
unfoldable pub strip_padding : Text → Text
strip_padding [] = []
strip_padding (c ∷ s) =
    let rest = strip_padding s in if c == b'=' && all_equals s then [] else c ∷ rest

-- The variables of the loop.
pub record Decoder : Type 0 where
  pub bit_buffer : ℕ
  pub bit_count : ℕ
  pub byte_index : ℕ
  pub bytes : List ℕ

-- The body of the loop for a character of the alphabet. `<<` is on 32 bits, and `|` with six bits that
-- are clear is a sum; a write behind the end of a `Uint8Array` changes nothing.
unfoldable pub take_sextet : ℕ → Decoder → Decoder
take_sextet value s =
    let buffer = (s.bit_buffer * 64) % 2 ^ 32 + value in
    let count = s.bit_count + 6 in
    if leb 8 count
    then (record {
      bit_buffer = buffer;
      bit_count = count - 8;
      byte_index = s.byte_index + 1;
      bytes = set s.bytes s.byte_index ((buffer / 2 ^ (count - 8)) % 256);
    })
    else (record s { bit_buffer = buffer; bit_count = count })

-- Stray characters are skipped.
unfoldable pub feed : ℕ → Decoder → Decoder
feed c s = elim (b64_lookup c) [ none ↦ s | some value ↦ take_sextet value s ]

unfoldable pub decode_from : Decoder → Text → Decoder
decode_from s [] = s
decode_from s (c ∷ clean) = decode_from (feed c s) clean

abbrev pub start_at : ℕ → Decoder
start_at byte_length = record {
  bit_buffer = 0;
  bit_count = 0;
  byte_index = 0;
  bytes = replicate byte_length 0;
}

-- `subarray(0, byteIndex)`, also where it is the whole array.
unfoldable pub base64_to_bytes : Text → List ℕ
base64_to_bytes input =
    let clean = strip_padding (normalized input) in
    let done = decode_from (start_at ((length clean * 6) / 8)) clean in
    take done.byte_index done.bytes

-- The loop of `utf8Decode`, on the bytes that are left; a byte that is missing reads as 0, which is
-- what `undefined & mask` is.
unfoldable pub utf8_loop : ℕ → List ℕ → Text
utf8_loop zero bytes = []
utf8_loop (suc fuel) [] = []
utf8_loop (suc fuel) (byte1 ∷ bytes) =
    let byte2 = get_or bytes 0 0 in
    let byte3 = get_or bytes 1 0 in
    let byte4 = get_or bytes 2 0 in
    let rest1 = utf8_loop fuel bytes in
    let rest2 = utf8_loop fuel (drop 1 bytes) in
    let rest3 = utf8_loop fuel (drop 2 bytes) in
    let rest4 = utf8_loop fuel (drop 3 bytes) in
    let code_point =
      (byte1 % 8) * 2 ^ 18 + (byte2 % 64) * 2 ^ 12 + (byte3 % 64) * 2 ^ 6 + byte4 % 64 in
    if ltb byte1 0x80
    then byte1 ∷ rest1
    else if leb 0xc0 byte1 && ltb byte1 0xe0
    then ((byte1 % 32) * 2 ^ 6 + byte2 % 64) ∷ rest2
    else if leb 0xe0 byte1 && ltb byte1 0xf0
    then ((byte1 % 16) * 2 ^ 12 + (byte2 % 64) * 2 ^ 6 + byte3 % 64) ∷ rest3
    else (0xd800 + code_point / 2 ^ 10 - 64) ∷ (0xdc00 + code_point % 2 ^ 10) ∷ rest4

-- Each round of the loop takes a byte at least.
unfoldable pub utf8_decode : List ℕ → Text
unfolding utf8_loop
utf8_decode bytes = utf8_loop (length bytes) bytes

unfoldable pub base64_to_string : Text → Text
base64_to_string input = utf8_decode (base64_to_bytes input)
