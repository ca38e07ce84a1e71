-- ===== src/Urltest/Tests.antt =====
-- Runs of src/urltest/urltest.ts, and its theorems at concrete servers and times.
use mathlib.Core.List.{Perm}
use react_native_nitro_xray.Prelude.{
  List, Option, [], arith, codes, false, get_or, length, none, refl, some, ℕ, ◌+◌, ◌<◌, ◌∷◌, ◌≡◌,
  ◌≤◌, ◌⊎◌,
}
use react_native_nitro_xray.Json.{nat}
use react_native_nitro_xray.Subscription.Types.{ParsedServer, vless}
use react_native_nitro_xray.Urltest.{UrlTestResult, rank, sort, with_index, insert, compare_ranked}
use react_native_nitro_xray.Urltest.Ranking.{IsRanking, rank-IsRanking}
use react_native_nitro_xray.Urltest.Measure.{
  responded, rejected, measure, rejects, HasAnswered, measure-HasAnswered,
}
use react_native_nitro_xray.Urltest.Run.{UrlTestOptions, Network, probe, url_test}
use react_native_nitro_xray.Urltest.Run.Probed.{AreWaiting, probed_results}
use react_native_nitro_xray.Urltest.Run.Refined.{url_test-rank}
use react_native_nitro_xray.Urltest.Pool.{
  start, settle, settles, claim, add_worker, add_workers, write,
}
use react_native_nitro_xray.Urltest.Pool.Once.{IsLive, settles-live}

abbrev server : ℕ → ParsedServer
server port = record {
  protocol = vless;
  tag = codes "S";
  address = codes "example.com";
  port = nat port;
  id = some (codes "uuid");
  password = none;
  method = none;
  alter_id = none;
  encryption = none;
  flow = none;
  network = codes "tcp";
  security = codes "none";
  sni = none;
  fingerprint = none;
  alpn = none;
  public_key = none;
  short_id = none;
  spider_x = none;
  path = none;
  host = none;
  service_name = none;
  header_type = none;
  raw = [];
}

abbrev result : ℕ → Option ℕ → UrlTestResult
result port latency = record { server = server port; latency_ms = latency }

abbrev measured : List UrlTestResult
measured = result 1 none ∷ result 2 (some 90) ∷ result 3 (some 40) ∷ result 4 (some 90) ∷ []

abbrev ranked : List UrlTestResult
ranked = result 3 (some 40) ∷ result 2 (some 90) ∷ result 4 (some 90) ∷ result 1 none ∷ []

rank_run : rank measured ≡ ranked
unfolding rank sort with_index insert compare_ranked
rank_run = refl

rank-IsRanking_example : IsRanking measured (rank measured) × Perm (rank measured) measured
rank-IsRanking_example = rank-IsRanking measured

rejected_run : measure 3000 1000000 (rejected 1120400 false) ≡ some 120
unfolding measure
rejected_run = refl

-- An error that the abort did not cause, 120.4 ms after the start.
measure-HasAnswered_example : (120 ≤ 3000 + 250) × HasAnswered 3000 120 (rejected 1120400 false)
measure-HasAnswered_example =
    measure-HasAnswered 3000 1000000 120 (rejected 1120400 false)
      (rejects 1120400 false (omega arith)) rejected_run

-- A clock that stepped back while the probe ran.
stepped_back : measure 3000 1000000 (responded 400000) ≡ some 0
unfolding measure
stepped_back = refl

abbrev servers : List ParsedServer
servers = server 1 ∷ server 2 ∷ server 3 ∷ []

-- Two workers: the second server's probe settles first, and its worker takes the third.
abbrev events : List (ℕ × Option ℕ)
events = (1, some 40) ∷ (0, none) ∷ (1, some 70) ∷ []

live : IsLive servers events (start servers 2)
unfolding IsLive start settle add_worker add_workers claim write
live = ((1, refl), ((0, refl), ((2, refl), tt)))

settles_run :
    (settles servers events (start servers 2)).results
    ≡ some (result 1 none) ∷ some (result 2 (some 40)) ∷ some (result 3 (some 70)) ∷ []
unfolding start settles settle add_worker add_workers claim write
settles_run = refl

settles-live_example :
    (length (settles servers events (start servers 2)).busy ≡ 2)
    × ((length events ≡ length servers)
        ⊎ ((length events < length servers)
            × ((w : ℕ) × (i : ℕ) × (get_or (settles servers events (start servers 2)).busy w none
                  ≡ some i))))
settles-live_example = settles-live servers 2 events live

-- Two workers, and probes that all take 40 ms.
abbrev two_workers : UrlTestOptions
two_workers = record { timeout_ms = none; concurrency = some 2; probe_url = none }

abbrev even : Network
even index url = (1000, responded 41000)

abbrev order : List ℕ
order = 1 ∷ 0 ∷ 1 ∷ []

waiting : AreWaiting (probe two_workers even) servers order (start servers 2)
unfolding AreWaiting start settle add_worker add_workers claim write
waiting = ((1, refl), ((0, refl), ((2, refl), tt)))

url_test-rank_example :
    ((length order ≡ length servers)
      × (url_test two_workers even servers order
          ≡ some (rank (probed_results (probe two_workers even) servers))))
    ⊎ ((length order < length servers) × (url_test two_workers even servers order ≡ none))
url_test-rank_example = url_test-rank two_workers even servers order waiting
