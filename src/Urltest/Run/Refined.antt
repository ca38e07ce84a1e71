-- ===== src/Urltest/Run/Refined.antt =====
-- `urlTest` with its workers gives the ranking of one probe after the other.
use Prim.Native.Nat.{min, max}
use react_native_nitro_xray.Prelude.{
  Bool-cases, List, Option, ap, arith, eqb_iff, get_or, if◌then◌else◌, inl, inr, length, none,
  or_default, refl, some, sym, ℕ, ◌<◌, ◌==◌, ◌∙◌, ◌≡◌, ◌≢◌, ◌⊎◌,
}
use react_native_nitro_xray.Subscription.Types.{ParsedServer}
use react_native_nitro_xray.Urltest.{rank}
use react_native_nitro_xray.Urltest.Pool.{Pool, start, settles}
use react_native_nitro_xray.Urltest.Pool.Counts.{
  slot, returned, returned_le, in_flight-returned, in_flight-pos,
}
use react_native_nitro_xray.Urltest.Pool.Invariant.{start-IsValid, settles-IsValid}
use react_native_nitro_xray.Urltest.Pool.Once.{IsLive, settles-live, settles-probed}
use react_native_nitro_xray.Urltest.Run.{
  UrlTestOptions, Network, probe, settle_all, written, url_test,
}
use react_native_nitro_xray.Urltest.Run.Probed.{
  AreWaiting, events, settle_all-settles, length-events, events-IsLive, AreProbed,
  settle_all-AreProbed, start-AreProbed, probed_results, IsResult, written-probed_results,
}

-- The pool after the order.
module _ (probed : ℕ → ParsedServer → Option ℕ) (servers : List ParsedServer) (concurrency : ℕ)
    (order : List ℕ) (live : AreWaiting probed servers order (start servers concurrency)) where
  abbrev final : Pool
  final = settle_all probed servers order (start servers concurrency)

  made : List (ℕ × Option ℕ)
  made = events probed servers order (start servers concurrency)

  final-settles : final ≡ settles servers made (start servers concurrency)
  unfolding made
  final-settles = settle_all-settles probed servers order (start servers concurrency)

  made-IsLive : IsLive servers made (start servers concurrency)
  unfolding made
  made-IsLive = events-IsLive probed servers order (start servers concurrency) live

  length-made : length made ≡ length order
  unfolding made
  length-made = length-events probed servers order (start servers concurrency)

  final-sized : length final.results ≡ length servers
  final-sized =
      rw final-settles (settles-IsValid servers made _ (start-IsValid servers concurrency)).sized

  final-IsResult :
      length order ≡ length servers
      → (i : ℕ) → i < length servers
      → IsResult probed i final.results servers
  unfolding IsResult AreProbed
  final-IsResult all i inside =
      let (r, found, server) =
        (settles-probed servers concurrency made made-IsLive i (length-made ∙ all) inside).1 in
      let found' : slot final i ≡ some r = rw final-settles found in
      (
        r,
        found',
        server,
        settle_all-AreProbed probed servers order (start servers concurrency)
            (start-AreProbed probed servers concurrency) i r found',
      )

  final-written :
      length order ≡ length servers → written final.results ≡ probed_results probed servers
  final-written all =
      written-probed_results probed final.results servers final-sized (final-IsResult all)

  final-workers : length final.busy ≡ min (max 1 concurrency) (length servers)
  final-workers = rw final-settles (settles-live servers concurrency made made-IsLive).0

  final-returned : length order ≡ length servers → returned final.busy ≡ length final.busy
  final-returned all = elim (Bool-cases (length servers == 0)) [
    | inl empty ↦ ground (arith, empty, final-workers, returned_le final.busy)
    | inr filled ↦
        rw final-settles
          (settles-probed servers concurrency made made-IsLive 0 (length-made ∙ all)
            (ground (arith, filled))).0
  ]

  -- A worker that waits has not returned.
  final-waits : length order < length servers → returned final.busy ≡ length final.busy → ⊥
  final-waits fewer all = elim (settles-live servers concurrency made made-IsLive).1 [
    | inl same ↦ omega (arith, same, length-made, fewer)
    | inr (less, (w, i, h)) ↦
        let busy : get_or final.busy w none ≡ some i = rw final-settles h in
        omega (arith, in_flight-pos final.busy w i busy, in_flight-returned final.busy i all)
  ]

  final-fewer : length order ≢ length servers → length order < length servers
  final-fewer ne = elim (settles-live servers concurrency made made-IsLive).1 [
    | inl same ↦ absurd (ne (sym length-made ∙ same))
    | inr (less, waiting) ↦ omega (arith, less, length-made)
  ]

-- The value of a test on the state of the workers.
if_same : {A : Type 0} (m n : ℕ) (a b : A) → m ≡ n → (if m == n then a else b) ≡ a
if_same m n a b h = rw ((eqb_iff m n).1 h) refl

if_other : {A : Type 0} (m n : ℕ) (a b : A) → (m ≡ n → ⊥) → (if m == n then a else b) ≡ b
if_other m n a b h = elim (Bool-cases (m == n)) [
  | inl same ↦ absurd (h ((eqb_iff m n).0 same))
  | inr other ↦ rw other refl
]

-- When workers that wait for a probe have theirs settled in any order, either as many probes have
-- settled as there are servers, and `urlTest` resolves with the ranking of what the probe of each server
-- gives, one after the other and in their order, whatever the concurrency; or fewer have, and it has not
-- resolved.
pub url_test-rank :
    (options : UrlTestOptions) (network : Network) (servers : List ParsedServer) (order : List ℕ)
    → AreWaiting
        (probe options network)
        servers
        order
        (start servers (or_default options.concurrency 8))
    → ((length order ≡ length servers)
        × (url_test options network servers order
            ≡ some (rank (probed_results (probe options network) servers))))
      ⊎ ((length order < length servers) × (url_test options network servers order ≡ none))
unfolding url_test
url_test-rank options network servers order live =
    let probed = probe options network in
    let workers = or_default options.concurrency 8 in
    let p = final probed servers workers order live in
    let done = made probed servers workers order live in
    elim (Bool-cases (length order == length servers)) [
      | inl same ↦
          let all = (eqb_iff (length order) (length servers)).0 same in
          inl (
            all,
            if_same (returned p.busy) (length p.busy) _ none
                  (final-returned probed servers workers order live all)
                ∙ ap (λ rs. some (rank rs)) (final-written probed servers workers order live all),
          )
      | inr other ↦
          let fewer =
            final-fewer probed servers workers order live
              (λ e. cc ((eqb_iff (length order) (length servers)).1 e, other)) in
          inr (
            fewer,
            if_other (returned p.busy) (length p.busy) _ none
                (final-waits probed servers workers order live fewer),
          )
    ]
