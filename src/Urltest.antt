-- ===== src/Urltest.antt =====
-- src/urltest/urltest.ts: probing servers with a pool of workers, and ranking them.
pub mod Measure
pub mod Ranking
pub mod Pool
pub mod Run
mod Tests
use react_native_nitro_xray.Prelude.{
  [], Bool, List, Option, false, if◌then◌else◌, ltb, map, none, some, true, ℕ, ◌+◌, ◌∷◌,
}
use react_native_nitro_xray.Subscription.Types.{ParsedServer}

-- `latencyMs` is `none` for a server that was not reached.
pub record UrlTestResult : Type 0 where
  pub server : ParsedServer
  pub latency_ms : Option ℕ

-- A result with its position in the input.
pub record Ranked : Type 0 where
  pub result : UrlTestResult
  pub index : ℕ

pub data Sign : Type 0 where
  negative zero_sign positive : Sign

-- The sign of `a - b`.
abbrev pub sign_sub : ℕ → ℕ → Sign
sign_sub a b = if ltb a b then negative else if ltb b a then positive else zero_sign

-- `a || b` on numbers.
abbrev pub or_sign : Sign → Sign → Sign
or_sign zero_sign s = s
or_sign s _ = s

abbrev pub compare_latency : Option ℕ → Option ℕ → ℕ → ℕ → Sign
compare_latency none none i j = sign_sub i j
compare_latency none (some lb) i j = positive
compare_latency (some la) none i j = negative
compare_latency (some la) (some lb) i j = or_sign (sign_sub la lb) (sign_sub i j)

-- The comparison function of the `sort`.
unfoldable pub compare_ranked : Ranked → Ranked → Sign
compare_ranked a b = compare_latency a.result.latency_ms b.result.latency_ms a.index b.index

unfoldable pub with_index : ℕ → List UrlTestResult → List Ranked
with_index i [] = []
with_index i (r ∷ rs) = record { result = r; index = i } ∷ with_index (i + 1) rs

abbrev pub comes_first : Ranked → Ranked → Bool
comes_first a b = elim (compare_ranked a b) [ positive ↦ false | _ ↦ true ]

-- `Array.prototype.sort`. The comparison never returns 0 for two positions, so every sort that obeys
-- it has this result.
unfoldable pub insert : Ranked → List Ranked → List Ranked
insert a [] = a ∷ []
insert a (b ∷ bs) = if comes_first a b then a ∷ b ∷ bs else b ∷ insert a bs

unfoldable pub sort : List Ranked → List Ranked
sort [] = []
sort (a ∷ as') = insert a (sort as')

-- The last lines of `urlTest`.
unfoldable pub rank : List UrlTestResult → List UrlTestResult
rank results = map (λ a. a.result) (sort (with_index 0 results))
