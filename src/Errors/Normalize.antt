-- ===== src/Errors/Normalize.antt =====
-- `toXrayError`: when a message names a code, and what becomes of it otherwise.
use react_native_nitro_xray.Prelude.{
  codes, Bool, false, Text, text_eq, text_eq_iff, index_of, index_of-append, index_of_sound, Lacks,
  length, take, take-append, drop, drop-append_cons, ltb, Bool-cases, Option-cases, true, none,
  some, List, [], ◌∷◌, ◌++◌, suc, zero, ◌≡◌, ◌≢◌, inl, inr, refl, ap, sym, ◌∙◌, arith, ℕ,
}
use react_native_nitro_xray.Errors.{
  XrayErrorCode, is_retryable, code_text, XrayError, xray_error, known_codes, find_code, Thrown,
  xray, error, value, from_message, to_xray_error, olcrtc_invalid_config, olcrtc_start_failed,
  olcrtc_not_ready, engine_start_failed, permission_denied, subscription_timeout,
  subscription_http_error, stats_unavailable, unknown,
}

-- The set finds every code by its own string.
find_code-code_text : (c : XrayErrorCode) → find_code (code_text c) known_codes ≡ some c
unfolding find_code known_codes code_text text_eq
find_code-code_text olcrtc_invalid_config = refl
find_code-code_text _ = refl

code_text-Lacks_bar : (c : XrayErrorCode) → Lacks b'|' (code_text c)
unfolding code_text
code_text-Lacks_bar olcrtc_invalid_config = omega arith
code_text-Lacks_bar _ = omega arith

code_text-ne-nil : (c : XrayErrorCode) → ltb 0 (length (code_text c)) ≡ true
unfolding code_text
code_text-ne-nil olcrtc_invalid_config = refl
code_text-ne-nil _ = refl

find_code_sound :
    (t : Text) (l : List XrayErrorCode) (c : XrayErrorCode)
    → find_code t l ≡ some c
    → code_text c ≡ t
unfolding find_code
find_code_sound t [] c h = cc
find_code_sound t (d ∷ l) c h = elim (Bool-cases (text_eq (code_text d) t)) [
  | inl same ↦ let e : d ≡ c = ground arith in rw (← e) ((text_eq_iff _ _).0 same)
  | inr other ↦ find_code_sound t l c (rw other at h)
]

-- The message of a native rejection: `CODE|message`.
abbrev pub native_message : XrayErrorCode → Text → Text
native_message c msg = code_text c ++ b'|' ∷ msg

module _ (c fallback : XrayErrorCode) (msg : Text) where
  pub from_message-native : from_message (native_message c msg) fallback ≡ xray_error c msg
  unfolding from_message
  from_message-native = ground (
    arith,
    index_of-append b'|' (code_text c) msg (code_text-Lacks_bar c),
    code_text-ne-nil c,
    take-append (code_text c) (b'|' ∷ msg),
    find_code-code_text c,
    drop-append_cons (code_text c) b'|' msg,
  )

-- The documented string of each code, and whether a call that failed with it may be tried again.
abbrev pub documented : XrayErrorCode → Text × Bool
documented olcrtc_invalid_config = (codes "OLCRTC_INVALID_CONFIG", false)
documented olcrtc_start_failed = (codes "OLCRTC_START_FAILED", true)
documented olcrtc_not_ready = (codes "OLCRTC_NOT_READY", true)
documented engine_start_failed = (codes "ENGINE_START_FAILED", false)
documented permission_denied = (codes "PERMISSION_DENIED", false)
documented subscription_timeout = (codes "SUBSCRIPTION_TIMEOUT", true)
documented subscription_http_error = (codes "SUBSCRIPTION_HTTP_ERROR", false)
documented stats_unavailable = (codes "STATS_UNAVAILABLE", true)
documented unknown = (codes "UNKNOWN", false)

documented-code : (c : XrayErrorCode) → documented c ≡ (code_text c, is_retryable c)
unfolding code_text is_retryable
documented-code olcrtc_invalid_config = refl
documented-code olcrtc_start_failed = refl
documented-code olcrtc_not_ready = refl
documented-code engine_start_failed = refl
documented-code permission_denied = refl
documented-code subscription_timeout = refl
documented-code subscription_http_error = refl
documented-code stats_unavailable = refl
documented-code unknown = refl

-- The error with a code, a message and the retry flag of the code.
abbrev pub stated : XrayErrorCode → Text → XrayError
stated c msg = record { code = c; message = msg; retryable = (documented c).1 }

abbrev pub Names : Text → XrayErrorCode → Text → Type 0
Names msg c rest = msg ≡ (documented c).0 ++ b'|' ∷ rest

-- No code is the part of the message before a `|`.
abbrev pub IsPlain : Text → Type 0
IsPlain msg = (c : XrayErrorCode) (rest : Text) → ¬ Names msg c rest

-- What `from_message` returns for a message that names a code, and for one that does not.
pub data Reading (msg : Text) (fallback : XrayErrorCode) : XrayError → Type 0 where
  coded :
      (c : XrayErrorCode) (rest : Text) {e : XrayError}
      → Names msg c rest
      → e ≡ stated c rest
      → Reading msg fallback e
  plain : {e : XrayError} → IsPlain msg → e ≡ stated fallback msg → Reading msg fallback e

abbrev error_with : XrayErrorCode → Text → Bool → XrayError
error_with c msg b = record { code = c; message = msg; retryable = b }

xray_error-stated : (c : XrayErrorCode) (msg : Text) → xray_error c msg ≡ stated c msg
unfolding xray_error
xray_error-stated c msg = ap (λ (d : Text × Bool). error_with c msg d.1) (sym (documented-code c))

module _ {msg : Text} {fallback : XrayErrorCode} {e : XrayError} where
  coded_with :
      (c : XrayErrorCode) (rest : Text)
      → msg ≡ native_message c rest
      → e ≡ xray_error c rest
      → Reading msg fallback e
  coded_with c rest p q =
      coded c rest (p ∙ ap (λ (d : Text × Bool). d.0 ++ b'|' ∷ rest) (sym (documented-code c)))
        (q ∙ xray_error-stated c rest)

  plain_with :
      ((c : XrayErrorCode) (rest : Text) → msg ≢ native_message c rest)
      → e ≡ xray_error fallback msg
      → Reading msg fallback e
  plain_with h q =
      plain
        (λ c rest p.
          h c rest (p ∙ ap (λ (d : Text × Bool). d.0 ++ b'|' ∷ rest) (documented-code c)))
        (q ∙ xray_error-stated fallback msg)

-- The facts that a message with a code's prefix shows to `from_message`.
module _ (msg rest : Text) (c : XrayErrorCode) (e : msg ≡ native_message c rest) where
  index_of-native : index_of b'|' msg ≡ some (length (code_text c))
  index_of-native = rw e (index_of-append b'|' (code_text c) rest (code_text-Lacks_bar c))

  find_code-native : find_code (take (length (code_text c)) msg) known_codes ≡ some c
  find_code-native = rw e (rw (take-append (code_text c) (b'|' ∷ rest)) (find_code-code_text c))

module _ (msg : Text) (fallback : XrayErrorCode) where
  plain_of_no_bar : index_of b'|' msg ≡ none → Reading msg fallback (from_message msg fallback)
  unfolding from_message
  plain_of_no_bar e = plain_with (λ c rest p. cc (index_of-native msg rest c p)) (ground arith)

  plain_of_leading_bar :
      index_of b'|' msg ≡ some 0 → Reading msg fallback (from_message msg fallback)
  unfolding from_message
  plain_of_leading_bar e =
      plain_with (λ c rest p. ground (arith, index_of-native msg rest c p, code_text-ne-nil c))
        (ground arith)

  plain_of_unknown :
      (i : ℕ)
      → index_of b'|' msg ≡ some (suc i)
      → find_code (take (suc i) msg) known_codes ≡ none
      → Reading msg fallback (from_message msg fallback)
  unfolding from_message
  plain_of_unknown i e u =
      plain_with
        (λ c rest p. ground (arith, index_of-native msg rest c p, find_code-native msg rest c p))
        (ground arith)

  coded_of_known :
      (i : ℕ) (c : XrayErrorCode)
      → index_of b'|' msg ≡ some (suc i)
      → find_code (take (suc i) msg) known_codes ≡ some c
      → Reading msg fallback (from_message msg fallback)
  unfolding from_message
  coded_of_known i c e k =
      let s = index_of_sound b'|' msg (suc i) e in
      let named = find_code_sound (take (suc i) msg) known_codes c k in
      coded_with c (drop (suc (suc i)) msg)
        (s.parts ∙ ap (λ t. t ++ b'|' ∷ drop (suc (suc i)) msg) (sym named)) (ground arith)

  -- The part before the first `|` decides.
  by_prefix :
      (i : ℕ) → index_of b'|' msg ≡ some i → Reading msg fallback (from_message msg fallback)
  by_prefix zero e = plain_of_leading_bar e
  by_prefix (suc i) e = elim (Option-cases (find_code (take (suc i) msg) known_codes)) [
    | inl u ↦ plain_of_unknown i e u
    | inr (c, k) ↦ coded_of_known i c e k
  ]

  pub from_message-Reading : Reading msg fallback (from_message msg fallback)
  from_message-Reading = elim (Option-cases (index_of b'|' msg)) [
    | inl e ↦ plain_of_no_bar e
    | inr (i, e) ↦ by_prefix i e
  ]

-- The message that is read: an `XrayError` has been read before.
abbrev pub message_of : Thrown → Text
message_of (xray e) = e.message
message_of (error msg) = msg
message_of (value msg) = msg

abbrev pub IsForeign : Thrown → Type 0
IsForeign (xray e) = ⊥
IsForeign _ = Unit

-- For a thrown value that is no `XrayError`, and any fallback: if the message is a known code, a
-- bar and a rest, the error has that code, the rest as its message and the documented retry flag of that code;
-- if it is no such text, the error has the fallback, the whole message and the fallback's flag.
pub to_xray_error-Reading :
    (t : Thrown) (fallback : XrayErrorCode)
    → IsForeign t
    → Reading (message_of t) fallback (to_xray_error t fallback)
unfolding to_xray_error
to_xray_error-Reading (xray e) fallback h = absurd h
to_xray_error-Reading (error msg) fallback h = from_message-Reading msg fallback
to_xray_error-Reading (value msg) fallback h = from_message-Reading msg fallback

-- A native rejection `CODE|message` gives that code and message for every code and fallback, also
-- where the message has bars of its own; a second pass with any other fallback changes nothing.
pub to_xray_error-native :
    (c fallback other : XrayErrorCode) (msg : Text)
    → (to_xray_error (error (native_message c msg)) fallback ≡ xray_error c msg)
      × (to_xray_error (xray (to_xray_error (error (native_message c msg)) fallback)) other
          ≡ xray_error c msg)
unfolding to_xray_error
to_xray_error-native c fallback other msg =
    (from_message-native c fallback msg, from_message-native c fallback msg)
