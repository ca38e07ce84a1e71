-- ===== src/Subscription/UserInfo/Printed.antt =====
-- A printed userinfo header is read back.
use react_native_nitro_xray.Prelude.{
  All, Text, [], arith, false, inl, inr, is_space, leb, none, refl, suc, trim, trim_end, trim_start,
  true, ℕ, ◌&&◌, ◌∷◌, ◌≡◌, ◌≢◌, text_eq, ◌==◌, ◌<◌, codes, ◌^◌, List, some, Lacks, ◌-◌, ◌∙◌, lower,
  ◌*◌, ◌++◌, truthy, index_of-append, drop-append_cons, take-append, split, All-append, Bool,
  eqb_refl, ◌⊎◌, append-nil,
}
use react_native_nitro_xray.Subscription.Numbers.Written.{
  Digit, whole_text-filled, leading_digits-Digit, whole_text-Digit, digits_text-Digit,
}
use react_native_nitro_xray.Subscription.Numbers.{leading_digits, whole_text, digits_value}
use react_native_nitro_xray.Subscription.Numbers.Digits.{digits_value-digits_text, digits_value-end}
use react_native_nitro_xray.Subscription.UserInfo.{
  number_in, radix_of, decimal_of, bounded, behind_digits, to_number, SubscriptionInfo, set_info,
  set_part, unsigned, nat, behind_whole, set_parts, parse_subscription_user_info, no_info,
}

no_space : (c : ℕ) → Digit c → is_space c ≡ false
unfolding is_space
no_space c h = ground arith

trim_end-Digit : (s : Text) → All Digit s → trim_end s ≡ s
unfolding trim_end
trim_end-Digit [] h = refl
trim_end-Digit (c ∷ []) (h, k) = rw (no_space c h) refl
trim_end-Digit (c ∷ d ∷ s) (h, k) = rw (trim_end-Digit (d ∷ s) k, trim_end) refl

trim-Digit : (s : Text) → All Digit s → trim s ≡ s
unfolding trim trim_start
trim-Digit [] h = trim_end-Digit [] h
trim-Digit (c ∷ s) (h, k) = rw (no_space c h) (trim_end-Digit (c ∷ s) (h, k))

radix_of-Digit : (s : Text) → All Digit s → radix_of s ≡ none
unfolding radix_of
radix_of-Digit [] h = refl
radix_of-Digit (c ∷ []) h = refl
radix_of-Digit (c ∷ d ∷ s) (h, (k, l)) = ground arith

-- A text that starts with a digit.
pub not_infinity : (c : ℕ) (s : Text) → Digit c → text_eq (c ∷ s) (codes "Infinity") ≡ false
unfolding text_eq
not_infinity c s h = ground arith

no_sign : (c : ℕ) → Digit c → ((c == b'-') ≡ false) × ((c == b'+') ≡ false)
no_sign c h = ground arith

decimal_of-Digit :
    (c : ℕ) (s : Text)
    → All Digit (c ∷ s)
    → decimal_of (c ∷ s) ≡ behind_digits false (leading_digits (c ∷ s)) 0 []
unfolding decimal_of unsigned behind_whole
decimal_of-Digit c s (h, k) =
    rw ((no_sign c h).0, (no_sign c h).1, not_infinity c s h, leading_digits-Digit (c ∷ s) (h, k))
      refl

bounded-small : (n : ℕ) → n < 2 ^ 53 → bounded false n 0 ≡ nat n
unfolding bounded
bounded-small n h = rw (finite n h) refl
  where
    finite : (n : ℕ) → n < 2 ^ 53 → leb ((2 ^ 1024 - 2 ^ 970) * 10 ^ 0) n ≡ false
    finite n h = ground arith

behind_digits-small :
    (ds : List ℕ) (n : ℕ)
    → ds ≢ []
    → digits_value 0 ds ≡ n
    → n < 2 ^ 53
    → behind_digits false ds 0 [] ≡ nat n
unfolding behind_digits
behind_digits-small [] n ne e h = absurd (ne refl)
behind_digits-small (d ∷ ds) n ne e h = rw e (bounded-small n h)

leading_digits-nonempty : (c : ℕ) (s : Text) → Digit c → leading_digits (c ∷ s) ≢ []
unfolding leading_digits
leading_digits-nonempty c s h = λ e. go (ground (arith, h)) e
  where
    go : leb b'0' c && leb c b'9' ≡ true → leading_digits (c ∷ s) ≡ [] → ⊥
    go d e = cc (rw d at e)

to_number-Digit :
    (s : Text) (n : ℕ)
    → All Digit s
    → s ≢ []
    → digits_value 0 (leading_digits s) ≡ n
    → n < 2 ^ 53
    → to_number s ≡ nat n
unfolding to_number number_in
to_number-Digit [] n h ne e k = absurd (ne refl)
to_number-Digit (c ∷ s) n (h, hs) ne e k = rw (trim-Digit (c ∷ s) (h, hs)) (
    rw (radix_of-Digit (c ∷ s) (h, hs), number_in)
      (decimal_of-Digit c s (h, hs)
        ∙ behind_digits-small (leading_digits (c ∷ s)) n (leading_digits-nonempty c s h) e k))

to_number-whole_text : (n : ℕ) → n < 2 ^ 53 → to_number (whole_text n) ≡ nat n
unfolding whole_text
to_number-whole_text n h =
    to_number-Digit (whole_text n) n (digits_text-Digit (suc n) n [] tt) (whole_text-filled n)
      (digits_value-digits_text (suc n) n [] (omega arith) ∙ digits_value-end n) h

-- The four keys.
pub data InfoKey : Type 0 where
  upload_key download_key total_key expire_key : InfoKey

abbrev pub key_text : InfoKey → Text
key_text upload_key = codes "upload"
key_text download_key = codes "download"
key_text total_key = codes "total"
key_text expire_key = codes "expire"

-- The field of a key, set to a value.
abbrev pub set_key : InfoKey → ℕ → SubscriptionInfo → SubscriptionInfo
set_key upload_key n info = record info { upload = some (nat n) }
set_key download_key n info = record info { download = some (nat n) }
set_key total_key n info = record info { total = some (nat n) }
set_key expire_key n info = record info { expire = some (nat n) }

set_info-key_text :
    (k : InfoKey) (n : ℕ) (info : SubscriptionInfo)
    → set_info (key_text k) (nat n) info ≡ some (set_key k n info)
unfolding set_info text_eq
set_info-key_text upload_key n info = refl
set_info-key_text download_key n info = refl
set_info-key_text total_key n info = refl
set_info-key_text expire_key n info = refl

truthy-filled : (s : Text) → s ≢ [] → truthy (some s) ≡ some s
truthy-filled [] h = absurd (h refl)
truthy-filled (c ∷ s) h = refl

set_part-append :
    (before key digits : Text) (n : ℕ) (info : SubscriptionInfo)
    → Lacks b'=' before
    → lower (trim before) ≡ key
    → trim digits ≡ digits
    → digits ≢ []
    → to_number digits ≡ nat n
    → set_part (before ++ b'=' ∷ digits) info ≡ set_info key (nat n) info
unfolding set_part
set_part-append before key digits n info lacks k t ne v =
    rw (index_of-append b'=' before digits lacks) (
      rw (drop-append_cons before b'=' digits, take-append before (b'=' ∷ digits))
        (rw (t, k) (rw (truthy-filled digits ne) (rw v refl))))

-- The space before an entry that is not the first.
abbrev pub lead : Bool → Text
lead true = b' ' ∷ []
lead false = []

-- `key=n`
abbrev pub entry : Bool → InfoKey × ℕ → Text
entry spaced (k, n) = (lead spaced ++ key_text k) ++ b'=' ∷ whole_text n

-- The entries behind the first, each after a semicolon and a space.
abbrev pub more_entries : List (InfoKey × ℕ) → Text
more_entries [] = []
more_entries (e ∷ es) = b';' ∷ (entry true e ++ more_entries es)

-- A header of at least one entry.
abbrev pub header : InfoKey × ℕ → List (InfoKey × ℕ) → Text
header e es = entry false e ++ more_entries es

-- What the entries say: the last one of a key counts.
abbrev pub set_all : List (InfoKey × ℕ) → SubscriptionInfo → SubscriptionInfo
set_all [] info = info
set_all ((k, n) ∷ es) info = set_all es (set_key k n info)

split-Lacks : (c : ℕ) (s : Text) → Lacks c s → split c s ≡ s ∷ []
unfolding split
split-Lacks c [] h = refl
split-Lacks c (d ∷ s) (h, k) = rw (ne_test d c h, split-Lacks c s k) refl
  where
    ne_test : (d c : ℕ) → d ≢ c → (d == c) ≡ false
    ne_test d c h = ground (arith, h)

split-append : (c : ℕ) (s t : Text) → Lacks c s → split c (s ++ c ∷ t) ≡ s ∷ split c t
unfolding split
split-append c [] t h = rw (eqb_refl c) refl
split-append c (d ∷ s) t (h, k) = rw (ne_test d c h, split-append c s t k) refl
  where
    ne_test : (d c : ℕ) → d ≢ c → (d == c) ≡ false
    ne_test d c h = ground (arith, h)

Digit-Lacks : (s : Text) → All Digit s → Lacks b';' s
Digit-Lacks [] h = tt
Digit-Lacks (c ∷ s) ((h, j), k) = ((λ e. omega (arith, h, e)), Digit-Lacks s k)

lead-Lacks :
    (c : ℕ)
    → (c ≡ b';') ⊎ (c ≡ b'=')
    → (spaced : Bool) (k : InfoKey) → Lacks c (lead spaced ++ key_text k)
lead-Lacks c h true upload_key = ground (arith, h)
lead-Lacks c h true download_key = ground (arith, h)
lead-Lacks c h true total_key = ground (arith, h)
lead-Lacks c h true expire_key = ground (arith, h)
lead-Lacks c h false upload_key = ground (arith, h)
lead-Lacks c h false download_key = ground (arith, h)
lead-Lacks c h false total_key = ground (arith, h)
lead-Lacks c h false expire_key = ground (arith, h)

entry-Lacks : (spaced : Bool) (e : InfoKey × ℕ) → Lacks b';' (entry spaced e)
entry-Lacks spaced (k, n) =
    All-append _ (lead spaced ++ key_text k) (b'=' ∷ whole_text n)
      (lead-Lacks b';' (inl refl) spaced k)
      ((λ e. omega (arith, e)), Digit-Lacks (whole_text n) (whole_text-Digit n))

trim-lead : (spaced : Bool) (k : InfoKey) → lower (trim (lead spaced ++ key_text k)) ≡ key_text k
unfolding lower trim trim_start trim_end is_space
trim-lead true upload_key = refl
trim-lead true download_key = refl
trim-lead true total_key = refl
trim-lead true expire_key = refl
trim-lead false upload_key = refl
trim-lead false download_key = refl
trim-lead false total_key = refl
trim-lead false expire_key = refl

set_part-entry :
    (spaced : Bool) (k : InfoKey) (n : ℕ) (info : SubscriptionInfo)
    → n < 2 ^ 53
    → set_part (entry spaced (k, n)) info ≡ some (set_key k n info)
set_part-entry spaced k n info h =
    set_part-append (lead spaced ++ key_text k) (key_text k) (whole_text n) n info
      (lead-Lacks b'=' (inr refl) spaced k) (trim-lead spaced k)
      (trim-Digit (whole_text n) (whole_text-Digit n)) (whole_text-filled n)
      (to_number-whole_text n h)
    ∙ set_info-key_text k n info

abbrev pub IsCounter : InfoKey × ℕ → Type 0
IsCounter (k, n) = n < 2 ^ 53

set_parts-more :
    (spaced : Bool) (e : InfoKey × ℕ) (es : List (InfoKey × ℕ)) (info : SubscriptionInfo)
    (found : Bool)
    → All IsCounter (e ∷ es)
    → set_parts (split b';' (entry spaced e ++ more_entries es)) info found
      ≡ some (set_all (e ∷ es) info)
unfolding set_parts
set_parts-more spaced (k, n) [] info found (h, hs) =
    rw
      (
        append-nil (entry spaced (k, n)),
        split-Lacks b';' (entry spaced (k, n)) (entry-Lacks spaced (k, n)),
      )
      (rw (set_part-entry spaced k n info h, set_parts) refl)
set_parts-more spaced (k, n) (e ∷ es) info found (h, hs) =
    rw
      (split-append b';' (entry spaced (k, n)) (entry true e ++ more_entries es)
        (entry-Lacks spaced (k, n)))
      (rw (set_part-entry spaced k n info h, set_parts)
        (set_parts-more true e es (set_key k n info) true hs))

header-filled : (k : InfoKey) (n : ℕ) (es : List (InfoKey × ℕ)) → header (k, n) es ≢ []
header-filled upload_key n es e = cc e
header-filled download_key n es e = cc e
header-filled total_key n es e = cc e
header-filled expire_key n es e = cc e

-- A userinfo header of one entry or more, with counters below 2^53, gives for each of its keys the
-- number of the last entry with this key, and nothing for the others.
pub parse_subscription_user_info-header :
    (e : InfoKey × ℕ) (es : List (InfoKey × ℕ))
    → All IsCounter (e ∷ es)
    → parse_subscription_user_info (some (header e es)) ≡ some (set_all (e ∷ es) no_info)
unfolding parse_subscription_user_info
parse_subscription_user_info-header (k, n) es h =
    rw (truthy-filled (header (k, n) es) (header-filled k n es))
      (set_parts-more false (k, n) es no_info false h)
