-- ===== src/Errors.antt =====
-- src/errors.ts: the error codes, `XrayError`, and `toXrayError`, which reads the `CODE|message`
-- texts that the native sides reject with.
pub mod Normalize
mod Tests
use react_native_nitro_xray.Prelude.{
  Text, codes, text_eq, index_of, take, drop, ltb, if◌then◌else◌, Bool, true, false, Option, none,
  some, List, [], ◌∷◌, suc,
}

pub data XrayErrorCode : Type 0 where
  olcrtc_invalid_config olcrtc_start_failed olcrtc_not_ready : XrayErrorCode
  engine_start_failed permission_denied : XrayErrorCode
  subscription_timeout subscription_http_error : XrayErrorCode
  stats_unavailable unknown : XrayErrorCode

-- The string that the code is in the source.
unfoldable pub code_text : XrayErrorCode → Text
code_text olcrtc_invalid_config = codes "OLCRTC_INVALID_CONFIG"
code_text olcrtc_start_failed = codes "OLCRTC_START_FAILED"
code_text olcrtc_not_ready = codes "OLCRTC_NOT_READY"
code_text engine_start_failed = codes "ENGINE_START_FAILED"
code_text permission_denied = codes "PERMISSION_DENIED"
code_text subscription_timeout = codes "SUBSCRIPTION_TIMEOUT"
code_text subscription_http_error = codes "SUBSCRIPTION_HTTP_ERROR"
code_text stats_unavailable = codes "STATS_UNAVAILABLE"
code_text unknown = codes "UNKNOWN"

-- `RETRYABLE.has(code)`.
unfoldable pub is_retryable : XrayErrorCode → Bool
is_retryable olcrtc_start_failed = true
is_retryable olcrtc_not_ready = true
is_retryable subscription_timeout = true
is_retryable stats_unavailable = true
is_retryable _ = false

pub record XrayError : Type 0 where
  pub code : XrayErrorCode
  pub message : Text
  pub retryable : Bool

unfoldable pub xray_error : XrayErrorCode → Text → XrayError
xray_error code message = record { code = code; message = message; retryable = is_retryable code }

-- `KNOWN_CODES`.
unfoldable pub known_codes : List XrayErrorCode
known_codes =
    olcrtc_invalid_config ∷ olcrtc_start_failed ∷ olcrtc_not_ready ∷ engine_start_failed
    ∷ permission_denied ∷ subscription_timeout ∷ subscription_http_error ∷ stats_unavailable
    ∷ unknown ∷ []

-- The code of the set whose string this is: the test `KNOWN_CODES.has(code)` and the cast after it.
unfoldable pub find_code : Text → List XrayErrorCode → Option XrayErrorCode
find_code text [] = none
find_code text (code ∷ rest) =
    if text_eq (code_text code) text then some code else find_code text rest

-- What a `catch` may receive: an `XrayError`, another `Error` with its message, or any other
-- value with its `String(e)`.
pub data Thrown : Type 0 where
  xray : XrayError → Thrown
  error : Text → Thrown
  value : Text → Thrown

-- The `"CODE|message"` reading of a message.
unfoldable pub from_message : Text → XrayErrorCode → XrayError
from_message msg fallback = elim (index_of b'|' msg) [
  | none ↦ xray_error fallback msg
  | some sep ↦
      if ltb 0 sep
      then (elim (find_code (take sep msg) known_codes) [
        | none ↦ xray_error fallback msg
        | some code ↦ xray_error code (drop (suc sep) msg)
      ])
      else xray_error fallback msg
]

unfoldable pub to_xray_error : Thrown → XrayErrorCode → XrayError
to_xray_error (xray e) fallback = e
to_xray_error (error msg) fallback = from_message msg fallback
to_xray_error (value msg) fallback = from_message msg fallback
