-- ===== src/Client/Fetch/Tests.antt =====
-- A host that never answers, and `fetchSubscription` from it.
use react_native_nitro_xray.Prelude.{
  false, if◌then◌else◌, ltb, ◌<◌, Option, Text, [], ap, arith, codes, none, refl, some, text_eq, ℕ,
  ◌∙◌, ◌∷◌, ◌≡◌,
}
use react_native_nitro_xray.Client.Fetch.{FetchEnd, aborted, fetched, Response}
use react_native_nitro_xray.Client.Engine.{returned}
use react_native_nitro_xray.Json.{nat}
use react_native_nitro_xray.Client.Fetch.Request.{
  Signal, RequestInit, Fetch, fetch_in_time, request_of, put_header, spread, default_headers,
}
use react_native_nitro_xray.Client.Fetch.Request.Limits.{
  Races, Network, Reply, responds, end_of, Hangs, IsInTime, fetch_in_time-IsInTime,
  fetch_in_time-limit,
}

abbrev at_abort : Option Signal → Option (ℕ × FetchEnd)
at_abort (some (some now)) = some (now, aborted)
at_abort _ = none

abbrev hanging : Fetch
hanging url request = at_abort request.signal

abbrev url : Text
url = codes "https://example.com/sub"

hanging-Hangs : Hangs hanging
hanging-Hangs = record {
  until_abort = λ url request limit h. ap at_abort h;
  else_never = λ url request h. ap at_abort h;
  without_never = λ url request h. ap at_abort h;
}

-- A host that is busy after 200 milliseconds, and a fetch that races it.
abbrev busy : Response
busy = record { ok = false; status = nat 503; user_info = none; text = returned [] }

abbrev busy_host : Network
busy_host _ headers = some (200, responds busy)

abbrev race : Option Signal → Option (ℕ × FetchEnd)
race none = some (200, fetched busy)
race (some none) = some (200, fetched busy)
race (some (some limit)) = if ltb 200 limit then some (200, fetched busy) else some (limit, aborted)

abbrev racing : Fetch
racing _ request = race request.signal

first-of : (limit : ℕ) → 200 < limit → race (some (some limit)) ≡ some (200, fetched busy)
first-of limit h = ground arith

last-of : (limit : ℕ) → limit < 200 → race (some (some limit)) ≡ some (limit, aborted)
last-of limit h = ground arith

racing-Races : Races racing busy_host
racing-Races = record {
  in_time = λ url request limit now reply h e soon.
      let same : ◌≡◌ {A = Option (ℕ × Reply)} (some (200, responds busy)) (some (now, reply)) = e in
      let (t, r) = parts same in ap race h ∙ first-of limit (omega (arith, t)) ∙ ap2 t r;
  too_late = λ url request limit now reply h e late.
      let (t, r) = parts e in ap race h ∙ last-of limit (omega (arith, t));
  silent = λ url request limit h e. cc e;
}
  where
    parts :
        {a b : ℕ} {p q : Reply}
        → ◌≡◌ {A = Option (ℕ × Reply)} (some (a, p)) (some (b, q))
        → (a ≡ b) × (p ≡ q)
    parts e = (cc e, cc e)

    ap2 :
        {b : ℕ} {q : Reply}
        → 200 ≡ b
        → responds busy ≡ q
        → ◌≡◌ {A = Option (ℕ × FetchEnd)} (some (200, fetched busy)) (some (b, end_of q))
    ap2 t r = rw (← t, ← r) refl

fetch_in_time-IsInTime_example :
    IsInTime (some (200, responds busy)) (fetch_in_time racing url none)
fetch_in_time-IsInTime_example =
    fetch_in_time-IsInTime racing busy_host url none racing-Races refl (omega arith)

-- A caller with a signal that is never aborted waits for ever.
abbrev patient : RequestInit
patient = record { signal = some (some none); headers = none }

fetch_in_time-limit_example : fetch_in_time hanging url (some patient) ≡ none
fetch_in_time-limit_example = fetch_in_time-limit hanging url (some patient) hanging-Hangs

-- Headers of the caller, one of them in place of a default.
abbrev with_headers : RequestInit
with_headers = record {
  signal = none;
  headers = some ((codes "X-Token", codes "t") ∷ (codes "User-Agent", codes "app") ∷ []);
}

headers_run :
    (request_of (some with_headers)).headers
    ≡ (codes "User-Agent", codes "app")
      ∷ (codes "Accept", codes "*/*")
      ∷ (codes "X-Token", codes "t")
      ∷ []
unfolding request_of spread put_header default_headers text_eq
headers_run = refl
