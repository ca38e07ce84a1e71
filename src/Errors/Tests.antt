-- ===== src/Errors/Tests.antt =====
-- Runs of src/errors.ts, and its theorems at concrete messages.
use react_native_nitro_xray.Prelude.{codes, text_eq, index_of, ◌≡◌, refl}
use react_native_nitro_xray.Errors.{
  olcrtc_not_ready, engine_start_failed, unknown, xray_error, code_text, is_retryable, find_code,
  known_codes, from_message, to_xray_error, error, value,
}
use react_native_nitro_xray.Errors.Normalize.{Reading, to_xray_error-Reading}

errors : Unit {0}
unfolding to_xray_error from_message find_code known_codes code_text xray_error is_retryable text_eq
    index_of
errors = tt

-- The texts of src/__tests__/errors.test.ts.
native_code :
    to_xray_error (error (codes "OLCRTC_NOT_READY|socks not ready")) unknown
    ≡ xray_error olcrtc_not_ready (codes "socks not ready")
unfolding errors
native_code = refl

no_code :
    to_xray_error (value (codes "|boom")) engine_start_failed
    ≡ xray_error engine_start_failed (codes "|boom")
unfolding errors
no_code = refl

to_xray_error-Reading_example :
    Reading
      (codes "WHAT|x")
      engine_start_failed
      (to_xray_error (error (codes "WHAT|x")) engine_start_failed)
to_xray_error-Reading_example =
    to_xray_error-Reading (error (codes "WHAT|x")) engine_start_failed tt
