-- ===== src/Urltest/Run.antt =====
-- `urlTest` of src/urltest/urltest.ts as a whole: its defaults, its pool and its ranking.
pub mod Probed
pub mod Refined
use react_native_nitro_xray.Prelude.{
  List, Option, Text, [], codes, get_elem?, get_or, if◌then◌else◌, length, none, or_default, some,
  ℕ, ◌++◌, ◌==◌, ◌∷◌,
}
use react_native_nitro_xray.Subscription.Types.{ParsedServer}
use react_native_nitro_xray.Subscription.Numbers.{number_text}
use react_native_nitro_xray.Urltest.{UrlTestResult, rank}
use react_native_nitro_xray.Urltest.Measure.{Race, measure}
use react_native_nitro_xray.Urltest.Pool.{Pool, start, settle}
use react_native_nitro_xray.Urltest.Pool.Counts.{returned}

-- `fetchFn` is in the second argument of `url_test`.
pub record UrlTestOptions : Type 0 where
  pub timeout_ms : Option ℕ
  pub concurrency : Option ℕ
  pub probe_url : Option (ParsedServer → Text)

-- `http://${s.address}:${s.port}`
unfoldable pub default_probe_url : ParsedServer → Text
default_probe_url s = codes "http://" ++ s.address ++ codes ":" ++ number_text s.port

-- When the probe of the server at a position starts, with its URL, and how the race of its fetch with the
-- timers ends.
abbrev pub Network : Type 0
Network = ℕ → Text → ℕ × Race

unfoldable pub probe : UrlTestOptions → Network → ℕ → ParsedServer → Option ℕ
probe options network index server =
    let (started_at, race) =
      network index (or_default options.probe_url default_probe_url server) in
    measure (or_default options.timeout_ms 3000) started_at race

-- The probe that a worker waits for settles, with what the network gave for it.
unfoldable pub latency_at : (ℕ → ParsedServer → Option ℕ) → List ParsedServer → Pool → ℕ → Option ℕ
latency_at probed servers p w = elim (get_or p.busy w none) [
  | none ↦ none
  | some index ↦ elim (get_elem? servers index) [ none ↦ none | some server ↦ probed index server ]
]

-- The workers in the order in which their probes settle.
unfoldable pub settle_all : (ℕ → ParsedServer → Option ℕ) → List ParsedServer → List ℕ → Pool → Pool
settle_all probed servers [] p = p
settle_all probed servers (w ∷ ws) p =
    settle_all probed servers ws (settle servers w (latency_at probed servers p w) p)

-- `results`, with a slot that was not written left out, as `map` leaves it out.
unfoldable pub written : List (Option UrlTestResult) → List UrlTestResult
written [] = []
written (none ∷ rs) = written rs
written (some r ∷ rs) = r ∷ written rs

-- The promise is `none` while a worker has not returned.
unfoldable pub url_test :
    UrlTestOptions → Network → List ParsedServer → List ℕ → Option (List UrlTestResult)
url_test options network servers order =
    let p =
      settle_all (probe options network) servers order
        (start servers (or_default options.concurrency 8)) in
    if returned p.busy == length p.busy then some (rank (written p.results)) else none
