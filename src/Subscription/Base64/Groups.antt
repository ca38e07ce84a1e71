-- ===== src/Subscription/Base64/Groups.antt =====
-- The bit buffer against groups of four characters: what `base64ToBytes` returns for any input.
use react_native_nitro_xray.Prelude.{
  List, Option-cases, Text, [], ap, arith, inl, inr, leb, length, length-append, refl, set, some,
  suc, take, true, ℕ, ◌%◌, ◌*◌, ◌++◌, ◌+◌, ◌-◌, ◌/◌, ◌<◌, ◌^◌, ◌∙◌, ◌∷◌, ◌≡◌, take-set, length-set,
  append_assoc, All, ◌≤◌, sym, append-nil, index_of-lt-length, length-replicate,
}
use react_native_nitro_xray.Subscription.Base64.Letters.{sextets, letters, sextets-letters}
use react_native_nitro_xray.Subscription.Base64.{
  b64_lookup, Decoder, take_sextet, feed, decode_from, b64_alphabet, start_at, base64_to_bytes,
  strip_padding, normalized,
}

-- RFC 4648, section 4: four characters are three bytes; three are two, two are one, and the bits
-- that are left over are dropped.
unfoldable pub groups : List ℕ → List ℕ
groups (a ∷ b ∷ c ∷ d ∷ rest) =
    (a * 4 + b / 16) ∷ ((b % 16) * 16 + c / 4) ∷ ((c % 4) * 64 + d) ∷ groups rest
groups (a ∷ b ∷ c ∷ []) = (a * 4 + b / 16) ∷ ((b % 16) * 16 + c / 4) ∷ []
groups (a ∷ b ∷ []) = (a * 4 + b / 16) ∷ []
groups _ = []

abbrev pub IsSextet : ℕ → Type 0
IsSextet v = v < 64

take_all : List ℕ → Decoder → Decoder
take_all [] s = s
take_all (v ∷ vs) s = take_all vs (take_sextet v s)

decode_from-take_all : (text : Text) (s : Decoder) → decode_from s text ≡ take_all (sextets text) s
unfolding decode_from take_all sextets feed
decode_from-take_all [] s = refl
decode_from-take_all (c ∷ text) s = elim (Option-cases (b64_lookup c)) [
  | inl stray ↦ ground (arith, decode_from-take_all text s)
  | inr (v, found) ↦ ground (arith, decode_from-take_all text (take_sextet v s))
]

-- A decoder in the middle of its input: `count` bits of `buffer` are not yet written, and `out` is
-- written at the front of an array of `cap` bytes.
record At (count buffer : ℕ) (out : List ℕ) (cap : ℕ) (s : Decoder) : Type 0 where
  counted : s.bit_count ≡ count
  buffered : s.bit_buffer ≡ buffer
  index : s.byte_index ≡ length out
  written : take (length out) s.bytes ≡ out
  size : length s.bytes ≡ cap

abbrev shifted : ℕ → ℕ → ℕ
shifted buffer v = (buffer * 64) % 2 ^ 32 + v

take_sextet-wait :
    {b cap : ℕ} {out : List ℕ} {s : Decoder} (v : ℕ)
    → At 0 b out cap s
    → At 6 (shifted b v) out cap (take_sextet v s)
unfolding take_sextet
take_sextet-wait v h = ground arith

-- The decoder after a byte is written.
abbrev wrote : ℕ → ℕ → Decoder → Decoder
wrote v left s = record {
  bit_buffer = shifted s.bit_buffer v;
  bit_count = left;
  byte_index = s.byte_index + 1;
  bytes = set s.bytes s.byte_index ((shifted s.bit_buffer v / 2 ^ left) % 256);
}

take_sextet-wrote :
    (v left : ℕ) (s : Decoder) → s.bit_count ≡ left + 2 → take_sextet v s ≡ wrote v left s
unfolding take_sextet
take_sextet-wrote v left s h =
    let e : s.bit_count + 6 - 8 ≡ left = omega arith in
    let big : leb 8 (s.bit_count + 6) ≡ true = ground arith in rw (big, e) refl

wrote-At :
    (v left : ℕ) {b cap : ℕ} (out : List ℕ) (s : Decoder)
    → At (left + 2) b out cap s
    → length out < cap
    → At left (shifted b v) (out ++ ((shifted b v / 2 ^ left) % 256) ∷ []) cap (wrote v left s)
wrote-At v left {b} out s h room =
    let byte : ℕ = (shifted b v / 2 ^ left) % 256 in
    let long : length (out ++ byte ∷ []) ≡ suc (length out) =
      omega (arith, length-append out (byte ∷ [])) in
    let fits : length out < length s.bytes = omega (arith, h.size) in
    record {
      counted = refl;
      buffered = ap (λ x. shifted x v) h.buffered;
      index = omega (arith, h.index, long);
      written =
          rw (long, h.index, h.buffered)
            (take-set s.bytes (length out) byte fits ∙ ap (λ t. t ++ byte ∷ []) h.written);
      size = length-set s.bytes s.byte_index _ ∙ h.size;
    }

take_sextet-byte :
    (v left : ℕ) {b cap : ℕ} (out : List ℕ) (s : Decoder)
    → At (left + 2) b out cap s
    → length out < cap
    → At left (shifted b v) (out ++ ((shifted b v / 2 ^ left) % 256) ∷ []) cap (take_sextet v s)
take_sextet-byte v left out s h room =
    rw (take_sextet-wrote v left s h.counted) (wrote-At v left out s h room)

-- The same with the byte that the buffer shows.
shown-At :
    (v left byte : ℕ) {b cap : ℕ} (out : List ℕ) (s : Decoder)
    → At (left + 2) b out cap s
    → length out < cap
    → (shifted b v / 2 ^ left) % 256 ≡ byte
    → At left (shifted b v) (out ++ byte ∷ []) cap (take_sextet v s)
shown-At v left byte out s h room e = rw (← e) (take_sextet-byte v left out s h room)

module _ {b cap : ℕ} (out : List ℕ) (s : Decoder) (h : At 0 b out cap s) (v w : ℕ) (hv : v < 64)
    (hw : w < 64) where
  two-At :
      length out < cap
      → At 4
          (shifted (shifted b v) w)
          (out ++ (v * 4 + w / 16) ∷ [])
          cap
          (take_sextet w (take_sextet v s))
  two-At room =
      shown-At w 4 (v * 4 + w / 16) out (take_sextet v s) (take_sextet-wait v h) room (omega arith)

  module _ (x : ℕ) (hx : x < 64) where
    three-At :
        length out + 1 < cap
        → At 2
            (shifted (shifted (shifted b v) w) x)
            (out ++ (v * 4 + w / 16) ∷ ((w % 16) * 16 + x / 4) ∷ [])
            cap
            (take_sextet x (take_sextet w (take_sextet v s)))
    three-At room = rw (← append_assoc out ((v * 4 + w / 16) ∷ []) (((w % 16) * 16 + x / 4) ∷ [])) (
        shown-At x 2 ((w % 16) * 16 + x / 4) (out ++ (v * 4 + w / 16) ∷ [])
          (take_sextet w (take_sextet v s)) (two-At (omega arith))
          (omega (arith, length-append out ((v * 4 + w / 16) ∷ []))) (omega arith))

    module _ (y : ℕ) (hy : y < 64) where
      abbrev full : List ℕ
      full = (v * 4 + w / 16) ∷ ((w % 16) * 16 + x / 4) ∷ ((x % 4) * 64 + y) ∷ []

      four-At :
          length out + 2 < cap
          → At 0
              (shifted (shifted (shifted (shifted b v) w) x) y)
              (out ++ full)
              cap
              (take_sextet y (take_sextet x (take_sextet w (take_sextet v s))))
      four-At room =
          let pair : List ℕ = (v * 4 + w / 16) ∷ ((w % 16) * 16 + x / 4) ∷ [] in
          rw (← append_assoc out pair (((x % 4) * 64 + y) ∷ [])) (
            shown-At y 0 ((x % 4) * 64 + y) (out ++ pair)
              (take_sextet x (take_sextet w (take_sextet v s))) (three-At (omega arith))
              (omega (arith, length-append out pair)) (omega arith))

-- The bytes that a decoder has written.
abbrev output : Decoder → List ℕ
output s = take s.byte_index s.bytes

At-output : {count b cap : ℕ} {out : List ℕ} {s : Decoder} → At count b out cap s → output s ≡ out
At-output h = rw h.index h.written

take_all-groups :
    (vs : List ℕ) {b cap : ℕ} (out : List ℕ) (s : Decoder)
    → All IsSextet vs
    → At 0 b out cap s
    → length out + (length vs * 6) / 8 ≤ cap
    → output (take_all vs s) ≡ out ++ groups vs
unfolding take_all groups
take_all-groups [] out s k h room = At-output h ∙ sym (append-nil out)
take_all-groups (v ∷ []) out s k h room = At-output (take_sextet-wait v h) ∙ sym (append-nil out)
take_all-groups (v ∷ w ∷ []) out s (kv, (kw, k)) h room =
    At-output (two-At out s h v w kv kw (omega arith))
take_all-groups (v ∷ w ∷ x ∷ []) out s (kv, (kw, (kx, k))) h room =
    At-output (three-At out s h v w kv kw x kx (omega arith))
take_all-groups (v ∷ w ∷ x ∷ y ∷ vs) out s (kv, (kw, (kx, (ky, k)))) h room =
    let next = four-At out s h v w kv kw x kx y ky (omega arith) in
    let bytes = full out s h v w kv kw x kx y ky in
    take_all-groups vs (out ++ bytes) _ k next (omega (arith, length-append out bytes))
    ∙ append_assoc out bytes (groups vs)

b64_lookup-IsSextet : (c v : ℕ) → b64_lookup c ≡ some v → IsSextet v
unfolding b64_lookup b64_alphabet
b64_lookup-IsSextet c v h = index_of-lt-length c _ v h

sextets-IsSextet : (text : Text) → All IsSextet (sextets text)
unfolding sextets
sextets-IsSextet [] = tt
sextets-IsSextet (c ∷ text) = elim (Option-cases (b64_lookup c)) [
  | inl stray ↦ rw (stray, All) (sextets-IsSextet text)
  | inr (v, found) ↦ rw (found, All) (b64_lookup-IsSextet c v found, sextets-IsSextet text)
]

length-sextets : (text : Text) → length (sextets text) ≤ length text
unfolding sextets
length-sextets [] = omega arith
length-sextets (c ∷ text) = ground (arith, length-sextets text)

start_at-At : (cap : ℕ) → At 0 0 [] cap (start_at cap)
start_at-At cap = record {
  counted = refl;
  buffered = refl;
  index = refl;
  written = refl;
  size = length-replicate cap 0;
}

-- The bytes are the groups of the characters that are left.
pub base64_to_bytes-sextets :
    (input : Text) → base64_to_bytes input ≡ groups (sextets (strip_padding (normalized input)))
unfolding base64_to_bytes
base64_to_bytes-sextets input =
    let clean = strip_padding (normalized input) in
    let cap = (length clean * 6) / 8 in
    rw (decode_from-take_all clean (start_at cap)) (
      take_all-groups (sextets clean) [] (start_at cap) (sextets-IsSextet clean) (start_at-At cap)
        (omega (arith, length-sextets clean)))

-- For every input, with any stray characters, white space, padding and letters of either alphabet:
-- the bytes are those that RFC 4648 gives for the groups of four letters of the input, the last group
-- cut short. So no bits are lost in the 32-bit buffer and no byte falls behind the end of the array.
pub base64_to_bytes-groups : (input : Text) → base64_to_bytes input ≡ groups (letters input)
base64_to_bytes-groups input = base64_to_bytes-sextets input ∙ ap groups (sextets-letters input)
