-- ===== src/Client/Fetch/Request.antt =====
-- src/client.ts: the request of `fetchSubscription`, and the timer that aborts it. `fetch` is a parameter:
-- a function from a URL and a request to when and how it ends. Times are milliseconds from the call.
pub mod Limits
use react_native_nitro_xray.Prelude.{
  [], List, Option, Text, codes, if◌then◌else◌, none, or_default, some, text_eq, ℕ, ◌∷◌,
}
use react_native_nitro_xray.Client.Engine.{Outcome}
use react_native_nitro_xray.Client.Fetch.{Response, FetchEnd, fetch_subscription}

-- A signal is the time at which it is aborted, `none` if it never is.
abbrev pub Signal : Type 0
Signal = Option ℕ

-- Of what the caller passes, the fields that the code touches; all others go into the request as they
-- are. The outer `none` of `signal` is a field that is not there, the inner one is `null`.
pub record RequestInit : Type 0 where
  pub signal : Option (Option Signal)
  pub headers : Option (List (Text × Text))

pub record Request : Type 0 where
  pub signal : Option Signal
  pub headers : List (Text × Text)

abbrev pub subscription_timeout_ms : ℕ
subscription_timeout_ms = 15000

-- `{ ...fields, [key]: value }`: a key that is there keeps its place.
unfoldable pub put_header : Text → Text → List (Text × Text) → List (Text × Text)
put_header key value [] = (key, value) ∷ []
put_header key value ((k, old) ∷ fields) =
    if text_eq k key then (k, value) ∷ fields else (k, old) ∷ put_header key value fields

-- `{ ...fields, ...more }`.
unfoldable pub spread : List (Text × Text) → List (Text × Text) → List (Text × Text)
spread fields [] = fields
spread fields ((key, value) ∷ more) = spread (put_header key value fields) more

unfoldable pub default_headers : List (Text × Text)
default_headers =
    (codes "User-Agent", codes "react-native-nitro-xray-core") ∷ (codes "Accept", codes "*/*") ∷ []

-- The controller's signal comes first, so that one of the caller's takes its place.
unfoldable pub request_of : Option RequestInit → Request
request_of none = record { signal = some (some subscription_timeout_ms); headers = default_headers }
request_of (some init) = record {
  signal = or_default init.signal (some (some subscription_timeout_ms));
  headers = spread default_headers (or_default init.headers []);
}

-- When and how a `fetch` ends; `none` if it does not.
abbrev pub Fetch : Type 0
Fetch = Text → Request → Option (ℕ × FetchEnd)

abbrev pub settled : Option (ℕ × FetchEnd) → Option (ℕ × Outcome Response)
settled none = none
settled (some (now, end)) = some (now, fetch_subscription end)

-- `fetchSubscription(url, init)`. The timer that `finally` clears can only abort a fetch that has ended.
unfoldable pub fetch_in_time : Fetch → Text → Option RequestInit → Option (ℕ × Outcome Response)
fetch_in_time fetch url init = settled (fetch url (request_of init))
