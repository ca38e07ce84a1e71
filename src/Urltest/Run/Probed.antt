-- ===== src/Urltest/Run/Probed.antt =====
-- The results that the workers of src/urltest/urltest.ts write are what the probes of their servers give.
use Prim.Native.Nat.{min, max}
use react_native_nitro_xray.Prelude.{
  List, Option, Option-cases, [], ap, arith, get_elem?, get_or, get_or-replicate, inl, inr, length,
  none, refl, set, some, suc, sym, zero, ℕ, ◌<◌, ◌∙◌, ◌∷◌, ◌≡◌, ◌⊎◌,
}
use react_native_nitro_xray.Subscription.Types.{ParsedServer}
use react_native_nitro_xray.Urltest.{UrlTestResult}
use react_native_nitro_xray.Urltest.Pool.{
  Pool, add_worker, add_workers, start, write, settle, settles,
}
use react_native_nitro_xray.Urltest.Pool.Once.{IsLive}
use react_native_nitro_xray.Urltest.Run.{latency_at, settle_all, written}

module _ (probed : ℕ → ParsedServer → Option ℕ) (servers : List ParsedServer) where
  -- Each worker of the order waits for a probe when its turn comes.
  unfoldable pub AreWaiting : List ℕ → Pool → Type 0
  AreWaiting [] p = Unit
  AreWaiting (w ∷ ws) p =
      ((index : ℕ) × (get_or p.busy w none ≡ some index))
      × AreWaiting ws (settle servers w (latency_at probed servers p w) p)

  unfoldable pub events : List ℕ → Pool → List (ℕ × Option ℕ)
  events [] p = []
  events (w ∷ ws) p =
      let latency = latency_at probed servers p w in
      (w, latency) ∷ events ws (settle servers w latency p)

  pub settle_all-settles :
      (order : List ℕ) (p : Pool)
      → settle_all probed servers order p ≡ settles servers (events order p) p
  unfolding settle_all settles events
  settle_all-settles [] p = refl
  settle_all-settles (w ∷ ws) p =
      settle_all-settles ws (settle servers w (latency_at probed servers p w) p)

  pub length-events : (order : List ℕ) (p : Pool) → length (events order p) ≡ length order
  unfolding events
  length-events [] p = refl
  length-events (w ∷ ws) p =
      ap suc (length-events ws (settle servers w (latency_at probed servers p w) p))

  pub events-IsLive :
      (order : List ℕ) (p : Pool) → AreWaiting order p → IsLive servers (events order p) p
  unfolding events AreWaiting IsLive
  events-IsLive [] p h = tt
  events-IsLive (w ∷ ws) p (h, hs) =
      (h, events-IsLive ws (settle servers w (latency_at probed servers p w) p) hs)

  -- Every result that is there is what the probe of its server gave.
  unfoldable pub AreProbed : List (Option UrlTestResult) → Type 0
  AreProbed rs =
      (i : ℕ) (r : UrlTestResult) → get_or rs i none ≡ some r → r.latency_ms ≡ probed i r.server

  set-either :
      (rs : List (Option UrlTestResult)) (i j : ℕ) (v : Option UrlTestResult)
      → ((get_or (set rs i v) j none ≡ v) × (i ≡ j))
        ⊎ (get_or (set rs i v) j none ≡ get_or rs j none)
  set-either [] i j v = inr refl
  set-either (r ∷ rs) zero zero v = inl (refl, refl)
  set-either (r ∷ rs) zero (suc j) v = inr refl
  set-either (r ∷ rs) (suc i) zero v = inr refl
  set-either (r ∷ rs) (suc i) (suc j) v = elim (set-either rs i j v) [
    | inl (here, same) ↦ inl (here, ap suc same)
    | inr old ↦ inr old
  ]

  set-AreProbed :
      (rs : List (Option UrlTestResult)) (i : ℕ) (server : ParsedServer)
      → AreProbed rs
      → AreProbed (set rs i (some (record { server = server; latency_ms = probed i server })))
  unfolding AreProbed
  set-AreProbed rs i server h j r e =
      let new : UrlTestResult = record { server = server; latency_ms = probed i server } in
      elim (set-either rs i j (some new)) [
        | inl (here, at) ↦ same new r i j at (sym here ∙ e) refl
        | inr old ↦ h j r (sym old ∙ e)
      ]
    where
      same :
          (new r : UrlTestResult) (i j : ℕ)
          → i ≡ j
          → some new ≡ some r
          → new.latency_ms ≡ probed i new.server
          → r.latency_ms ≡ probed j r.server
      same new r i j at e h = cc (at, e, h)

  latency_at-some :
      (p : Pool) (w index : ℕ) (server : ParsedServer)
      → get_or p.busy w none ≡ some index
      → get_elem? servers index ≡ some server
      → latency_at probed servers p w ≡ probed index server
  unfolding latency_at
  latency_at-some p w index server h k = rw (h, k, latency_at) refl

  write-some :
      (p : Pool) (index : ℕ) (server : ParsedServer) (latency : Option ℕ)
      → get_elem? servers index ≡ some server
      → (write servers index latency p).results
        ≡ set p.results index (some (record { server = server; latency_ms = latency }))
  unfolding write
  write-some p index server latency h = rw (h, write) refl

  write-none :
      (p : Pool) (index : ℕ) (latency : Option ℕ)
      → get_elem? servers index ≡ none
      → write servers index latency p ≡ p
  unfolding write
  write-none p index latency h = rw (h, write) refl

  write-AreProbed :
      (p : Pool) (w index : ℕ)
      → get_or p.busy w none ≡ some index
      → AreProbed p.results
      → AreProbed (write servers index (latency_at probed servers p w) p).results
  write-AreProbed p w index h probes = elim (Option-cases (get_elem? servers index)) [
    | inl missing ↦ rw (write-none p index (latency_at probed servers p w) missing) probes
    | inr (server, found) ↦ rw (latency_at-some p w index server h found) (
        rw (write-some p index server (probed index server) found)
          (set-AreProbed p.results index server probes))
  ]

  settle-AreProbed :
      (p : Pool) (w : ℕ)
      → AreProbed p.results
      → AreProbed (settle servers w (latency_at probed servers p w) p).results
  unfolding settle
  settle-AreProbed p w probes = elim (Option-cases (get_or p.busy w none)) [
    | inl idle ↦ rw (idle, settle) probes
    | inr (index, h) ↦ rw (h, settle) (write-AreProbed p w index h probes)
  ]

  pub settle_all-AreProbed :
      (order : List ℕ) (p : Pool)
      → AreProbed p.results
      → AreProbed (settle_all probed servers order p).results
  unfolding settle_all
  settle_all-AreProbed [] p probes = probes
  settle_all-AreProbed (w ∷ ws) p probes =
      settle_all-AreProbed ws (settle servers w (latency_at probed servers p w) p)
        (settle-AreProbed p w probes)

  add_workers-results : (k : ℕ) (p : Pool) → (add_workers servers k p).results ≡ p.results
  unfolding add_workers add_worker
  add_workers-results zero p = refl
  add_workers-results (suc k) p = add_workers-results k (add_worker servers p)

  pub start-AreProbed : (concurrency : ℕ) → AreProbed (start servers concurrency).results
  unfolding start AreProbed
  start-AreProbed concurrency i r h = cc (
    get_or-replicate {A = Option UrlTestResult} (length servers) i none,
    rw (add_workers-results (min (max 1 concurrency) (length servers)) _) at h,
  )

-- What one probe after the other gives.
abbrev pub probed_results : (ℕ → ParsedServer → Option ℕ) → List ParsedServer → List UrlTestResult
probed_results probed [] = []
probed_results probed (s ∷ ss) =
    record { server = s; latency_ms = probed 0 s } ∷ probed_results (λ i. probed (suc i)) ss

unfoldable pub IsResult :
    (ℕ → ParsedServer → Option ℕ) → ℕ → List (Option UrlTestResult) → List ParsedServer → Type 0
IsResult probed i rs ss =
    (r : UrlTestResult) × (get_or rs i none ≡ some r)
    × (get_elem? ss i ≡ some r.server)
    × (r.latency_ms ≡ probed i r.server)

pub written-probed_results :
    (probed : ℕ → ParsedServer → Option ℕ) (rs : List (Option UrlTestResult))
    (ss : List ParsedServer)
    → length rs ≡ length ss
    → ((i : ℕ) → i < length ss → IsResult probed i rs ss)
    → written rs ≡ probed_results probed ss
unfolding written IsResult
written-probed_results probed [] [] e h = refl
written-probed_results probed [] (s ∷ ss) e h = absurd (omega (arith, e))
written-probed_results probed (o ∷ rs) [] e h = absurd (omega (arith, e))
written-probed_results probed (o ∷ rs) (s ∷ ss) e h =
    let (r, here, server, latency) = h 0 (omega arith) in
    let rest =
      written-probed_results (λ i. probed (suc i)) rs ss (omega (arith, e))
        (λ i inside. h (suc i) (omega (arith, inside))) in
    rw here (
      ap (λ (r : UrlTestResult). r ∷ written rs) (same r s server latency)
      ∙ ap (◌∷◌ (record { server = s; latency_ms = probed 0 s })) rest)
  where
    same :
        (r : UrlTestResult) (s : ParsedServer)
        → some s ≡ some r.server
        → r.latency_ms ≡ probed 0 r.server
        → r ≡ record { server = s; latency_ms = probed 0 s }
    same r s e h = cc (e, h)
