-- ===== src/Client/Fetch/Request/Limits.antt =====
-- How long `fetchSubscription` of src/client.ts waits.
use react_native_nitro_xray.Prelude.{
  List, ltb, ◌<◌, ◌≢◌, Bool-cases, arith, inl, inr, Bool, Option, Text, codes, false, if◌then◌else◌,
  is_some, none, or_default, refl, some, true, ℕ, ◌++◌, ◌≡◌, ap, ◌∙◌,
}
use react_native_nitro_xray.Json.{Number}
use react_native_nitro_xray.Errors.{
  Thrown, xray, xray_error, subscription_timeout, subscription_http_error,
}
use react_native_nitro_xray.Subscription.Numbers.{number_text}
use react_native_nitro_xray.Client.Engine.{Outcome, returned, thrown}
use react_native_nitro_xray.Client.Fetch.{
  Response, FetchEnd, fetched, aborted, failed, fetch_subscription,
}
use react_native_nitro_xray.Client.Fetch.Request.{
  settled, Signal, RequestInit, Request, subscription_timeout_ms, request_of, Fetch, fetch_in_time,
}

-- What the network makes of a request, were it never aborted: when it has a response, or an exception
-- such as a host that is not found, if ever.
pub data Reply : Type 0 where
  responds : Response → Reply
  breaks : Thrown → Reply

abbrev pub Network : Type 0
Network = Text → List (Text × Text) → Option (ℕ × Reply)

abbrev pub end_of : Reply → FetchEnd
end_of (responds response) = fetched response
end_of (breaks e) = failed e

-- A fetch ends with what the network replies before its signal is aborted, and else with an
-- `AbortError` when its signal is aborted.
pub record Races (fetch : Fetch) (network : Network) : Type 0 where
  pub in_time :
      (url : Text) (request : Request) (limit now : ℕ) (reply : Reply)
      → request.signal ≡ some (some limit)
      → network url request.headers ≡ some (now, reply)
      → now < limit
      → fetch url request ≡ some (now, end_of reply)
  pub too_late :
      (url : Text) (request : Request) (limit now : ℕ) (reply : Reply)
      → request.signal ≡ some (some limit)
      → network url request.headers ≡ some (now, reply)
      → limit < now
      → fetch url request ≡ some (limit, aborted)
  pub silent :
      (url : Text) (request : Request) (limit : ℕ)
      → request.signal ≡ some (some limit)
      → network url request.headers ≡ none
      → fetch url request ≡ some (limit, aborted)

abbrev pub timeout_error : Thrown
timeout_error =
    xray (xray_error subscription_timeout (codes "Subscription fetch timed out after 15000ms"))

abbrev pub http_error : Number → Thrown
http_error status = xray (
    xray_error subscription_http_error
      (codes "Subscription fetch failed: HTTP " ++ number_text status))

-- What the caller gets for a reply, and when: the response, if it is ok, or the error of one that is
-- not, or the exception, each when the reply comes before 15 seconds are over; and else the timeout,
-- when they are over.
pub data IsInTime : Option (ℕ × Reply) → Option (ℕ × Outcome Response) → Type 0 where
  answers :
      (now : ℕ) (response : Response)
      → now < 15000
      → response.ok ≡ true
      → IsInTime (some (now, responds response)) (some (now, returned response))
  refuses :
      (now : ℕ) (response : Response)
      → now < 15000
      → response.ok ≡ false
      → IsInTime (some (now, responds response)) (some (now, thrown (http_error response.status)))
  fails :
      (now : ℕ) (e : Thrown) → now < 15000 → IsInTime (some (now, breaks e)) (some (now, thrown e))
  late :
      (now : ℕ) (reply : Reply)
      → 15000 < now
      → IsInTime (some (now, reply)) (some (15000, thrown timeout_error))
  silent : IsInTime none (some (15000, thrown timeout_error))

replied-IsInTime :
    (now : ℕ) (reply : Reply)
    → now < 15000
    → IsInTime (some (now, reply)) (settled (some (now, end_of reply)))
unfolding fetch_subscription
replied-IsInTime now (breaks e) h = fails now e h
replied-IsInTime now (responds response) h = answer response.ok refl
  where
    answer :
        (b : Bool)
        → response.ok ≡ b
        → IsInTime
            (some (now, responds response))
            (some (now, if b then returned response else thrown (http_error response.status)))
    answer true ok = answers now response h ok
    answer false bad = refuses now response h bad

timed_out : settled (some (15000, aborted)) ≡ some (15000, thrown timeout_error)
unfolding fetch_subscription
timed_out = refl

-- Without a signal of the caller.
abbrev pub has_signal : Option RequestInit → Bool
has_signal none = false
has_signal (some init) = is_some init.signal

own-signal :
    (init : Option RequestInit)
    → has_signal init ≡ false
    → (request_of init).signal ≡ some (some subscription_timeout_ms)
unfolding request_of
own-signal none h = refl
own-signal (some init) h = go init.signal h
  where
    go :
        (o : Option (Option Signal))
        → is_some o ≡ false
        → or_default o (some (some 15000)) ≡ some (some 15000)
    go none h = refl
    go (some s) h = cc

-- The reply does not come in the very millisecond of the timer.
abbrev pub IsNoTie : Option (ℕ × Reply) → Type 0
IsNoTie none = Unit
IsNoTie (some (now, reply)) = now ≢ 15000

module _ (fetch : Fetch) (network : Network) (races : Races fetch network) (url : Text)
    (request : Request) (own : request.signal ≡ some (some 15000)) where
  raced-IsInTime :
      (reply : Option (ℕ × Reply))
      → network url request.headers ≡ reply
      → IsNoTie reply
      → IsInTime reply (settled (fetch url request))
  raced-IsInTime none e apart = rw (races.silent url request 15000 own e, timed_out) silent
  raced-IsInTime (some (now, reply)) e apart = elim (Bool-cases (ltb now 15000)) [
    | inl soon ↦
        let before : now < 15000 = ground arith in
        rw (races.in_time url request 15000 now reply own e before)
          (replied-IsInTime now reply before)
    | inr rest ↦
        let after : 15000 < now = ground (arith, apart) in
        rw (races.too_late url request 15000 now reply own e after, timed_out)
          (late now reply after)
  ]

-- A caller that passes no signal of its own, on a `fetch` that races the network with its signal, gets
-- exactly what the network replies before 15 seconds are over, when it comes: a response that is ok,
-- the HTTP error of one that is not, or the exception. If the network replies later or never, it gets
-- the timeout, when 15 seconds are over. For a reply that does not come in that very millisecond.
pub fetch_in_time-IsInTime :
    (fetch : Fetch) (network : Network) (url : Text) (init : Option RequestInit)
    → Races fetch network
    → has_signal init ≡ false
    → IsNoTie (network url (request_of init).headers)
    → IsInTime (network url (request_of init).headers) (fetch_in_time fetch url init)
unfolding fetch_in_time
fetch_in_time-IsInTime fetch network url init races h apart =
    raced-IsInTime fetch network races url (request_of init) (own-signal init h)
      (network url (request_of init).headers) refl apart

-- A host that never answers: the fetch ends with an AbortError when its signal is aborted.
pub record Hangs (fetch : Fetch) : Type 0 where
  pub until_abort :
      (url : Text) (request : Request) (limit : ℕ)
      → request.signal ≡ some (some limit)
      → fetch url request ≡ some (limit, aborted)
  pub else_never :
      (url : Text) (request : Request) → request.signal ≡ some none → fetch url request ≡ none
  pub without_never :
      (url : Text) (request : Request) → request.signal ≡ none → fetch url request ≡ none

-- When the caller of a host that never answers gets the timeout: a signal that the caller passes takes
-- the place of the timer, and so does a `null`.
abbrev pub limit_of : Option (Option Signal) → Option ℕ
limit_of none = some 15000
limit_of (some none) = none
limit_of (some (some signal)) = signal

abbrev pub limit : Option RequestInit → Option ℕ
limit none = some 15000
limit (some init) = limit_of init.signal

abbrev pub timeout_at : Option ℕ → Option (ℕ × Outcome Response)
timeout_at none = none
timeout_at (some now) = some (now, thrown timeout_error)

abbrev abort_at : Option Signal → Option (ℕ × FetchEnd)
abort_at (some (some now)) = some (now, aborted)
abort_at _ = none

Hangs-abort_at :
    (fetch : Fetch) (url : Text) (request : Request) (s : Option Signal)
    → Hangs fetch
    → request.signal ≡ s
    → fetch url request ≡ abort_at s
Hangs-abort_at fetch url request none hangs h = hangs.without_never url request h
Hangs-abort_at fetch url request (some none) hangs h = hangs.else_never url request h
Hangs-abort_at fetch url request (some (some now)) hangs h = hangs.until_abort url request now h

settled-abort_at :
    (o : Option (Option Signal))
    → settled (abort_at (or_default o (some (some 15000)))) ≡ timeout_at (limit_of o)
unfolding fetch_subscription
settled-abort_at none = refl
settled-abort_at (some none) = refl
settled-abort_at (some (some none)) = refl
settled-abort_at (some (some (some now))) = refl

-- From a host that never answers, a caller that passes no signal gets the timeout when 15 seconds are
-- over. A caller that passes one gets it, as the same timeout of 15 seconds, when that signal is
-- aborted; and never, if that signal never is or is `null`. For a `fetch` that then ends with an AbortError when
-- its signal is aborted, and does not end otherwise.
pub fetch_in_time-limit :
    (fetch : Fetch) (url : Text) (init : Option RequestInit)
    → Hangs fetch
    → fetch_in_time fetch url init ≡ timeout_at (limit init)
unfolding fetch_in_time request_of
fetch_in_time-limit fetch url none hangs =
    ap settled (Hangs-abort_at fetch url (request_of none) (some (some 15000)) hangs refl)
    ∙ settled-abort_at none
fetch_in_time-limit fetch url (some init) hangs =
    ap settled (
      Hangs-abort_at fetch url (request_of (some init)) (or_default init.signal (some (some 15000)))
        hangs refl)
    ∙ settled-abort_at init.signal
