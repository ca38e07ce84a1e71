-- ===== src/Subscription/Links/Credentials.antt =====
-- The credentials of a SIP002 link are those that its userinfo encodes.
use react_native_nitro_xray.Prelude.{
  All, All-append, Bool, Lacks, List, Text, [], ap, append_assoc, arith, drop-append_cons,
  index_of-append, refl, some, sym, take-append, truthy, ℕ, ◌++◌, ◌∙◌, ◌∷◌, ◌≡◌, ◌≢◌,
}
use react_native_nitro_xray.Subscription.Base64.{base64_to_string}
use react_native_nitro_xray.Subscription.Base64.RoundTrip.{encode}
use react_native_nitro_xray.Subscription.Base64.Utf8.{
  utf8_text, utf16_text, utf16_units, IsCodePoint, base64_to_string-encode,
}
use react_native_nitro_xray.Subscription.Parts.{split_first}
use react_native_nitro_xray.Subscription.Links.{decode_userinfo_creds, creds_of}

utf16_text-append : (cs ds : List ℕ) → utf16_text (cs ++ ds) ≡ utf16_text cs ++ utf16_text ds
unfolding utf16_text
utf16_text-append [] ds = refl
utf16_text-append (c ∷ cs) ds =
    rw (utf16_text-append cs ds)
      (sym (append_assoc (utf16_units c) (utf16_text cs) (utf16_text ds)))

utf16_units-Lacks : (c : ℕ) → c ≢ b':' → Lacks b':' (utf16_units c)
unfolding utf16_units
utf16_units-Lacks c ne = ground arith

utf16_text-Lacks : (cs : List ℕ) → Lacks b':' cs → Lacks b':' (utf16_text cs)
unfolding utf16_text
utf16_text-Lacks [] k = tt
utf16_text-Lacks (c ∷ cs) (ne, k) =
    All-append _ (utf16_units c) (utf16_text cs) (utf16_units-Lacks c ne) (utf16_text-Lacks cs k)

split_first-append : (s t : Text) → Lacks b':' s → split_first (s ++ b':' ∷ t) b':' ≡ some (s, t)
unfolding split_first
split_first-append s t k =
    rw (index_of-append b':' s t k, split_first)
      (rw (take-append s (b':' ∷ t), drop-append_cons s b':' t) refl)

truthy-utf16_text :
    (c : ℕ) (cs : List ℕ) → truthy (some (utf16_text (c ∷ cs))) ≡ some (utf16_text (c ∷ cs))
unfolding utf16_text utf16_units
truthy-utf16_text c cs = ground arith

creds_of-split :
    (s t : Text) → Lacks b':' s → truthy (some s) ≡ some s → creds_of (s ++ b':' ∷ t) ≡ some (s, t)
creds_of-split s t k h = rw (split_first-append s t k, h) refl

colon : (cs : List ℕ) → utf16_text (b':' ∷ cs) ≡ b':' ∷ utf16_text cs
unfolding utf16_text utf16_units
colon cs = refl

-- The userinfo that is the base64, in either alphabet, padded or not, of the UTF-8 of a method, a colon
-- and a password gives back the method and the password, if the method is not empty and has no colon.
pub decode_userinfo_creds-encode :
    (url padded : Bool) (c : ℕ) (method password : List ℕ)
    → Lacks b':' (c ∷ method)
    → All IsCodePoint (c ∷ method)
    → All IsCodePoint password
    → decode_userinfo_creds (encode url padded (utf8_text ((c ∷ method) ++ b':' ∷ password)))
      ≡ some (utf16_text (c ∷ method), utf16_text password)
unfolding decode_userinfo_creds
decode_userinfo_creds-encode url padded c method password k h j =
    let cs = (c ∷ method) ++ b':' ∷ password in
    let points = All-append IsCodePoint (c ∷ method) (b':' ∷ password) h (omega arith, j) in
    let decoded = base64_to_string-encode url padded cs points in
    let user = encode url padded (utf8_text cs) in
    let parts : base64_to_string user ≡ utf16_text (c ∷ method) ++ b':' ∷ utf16_text password =
      decoded
      ∙ (utf16_text-append (c ∷ method) (b':' ∷ password)
          ∙ ap (λ t. utf16_text (c ∷ method) ++ t) (colon password)) in
    let found =
      creds_of-split (utf16_text (c ∷ method)) (utf16_text password)
        (utf16_text-Lacks (c ∷ method) k) (truthy-utf16_text c method) in
    let creds : creds_of (base64_to_string user)
        ≡ some (utf16_text (c ∷ method), utf16_text password) =
      ap (λ t. creds_of t) parts ∙ found in
    rw (creds, decode_userinfo_creds) refl
