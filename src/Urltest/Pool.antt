-- ===== src/Urltest/Pool.antt =====
-- The workers of src/urltest/urltest.ts: each takes the next server, waits for its probe, writes the
-- result and goes on. The probes settle in any order.
pub mod Counts
pub mod Invariant
pub mod Once
use Prim.Native.Nat.{min, max}
use react_native_nitro_xray.Prelude.{
  [], List, Option, get_elem?, get_or, if◌then◌else◌, length, ltb, none, replicate, set, some, suc,
  zero, ℕ, ◌++◌, ◌+◌, ◌∷◌,
}
use react_native_nitro_xray.Subscription.Types.{ParsedServer}
use react_native_nitro_xray.Urltest.{UrlTestResult}

-- The variables of `urlTest`; `busy` has the server that each worker waits for, `none` once it has
-- returned. A slot of `results` is `none` until it is written.
pub record Pool : Type 0 where
  pub next : ℕ
  pub busy : List (Option ℕ)
  pub results : List (Option UrlTestResult)

module _ (servers : List ParsedServer) where
  -- The loop's test and `next++`: the server that a worker takes, and the new `next`.
  unfoldable pub claim : ℕ → Option ℕ × ℕ
  claim next = if ltb next (length servers) then (some next, next + 1) else (none, next)

  -- `worker()`: a worker runs up to its first `await`.
  unfoldable pub add_worker : Pool → Pool
  unfolding claim
  add_worker p = record p { next = (claim p.next).1; busy = p.busy ++ (claim p.next).0 ∷ [] }

  unfoldable pub add_workers : ℕ → Pool → Pool
  add_workers zero p = p
  add_workers (suc k) p = add_workers k (add_worker p)

  -- `Math.min(Math.max(1, concurrency), servers.length)` workers.
  unfoldable pub start : ℕ → Pool
  start concurrency =
      add_workers (min (max 1 concurrency) (length servers))
        (record { next = 0; busy = []; results = replicate (length servers) none })

  -- `results[index] = { server, latencyMs }`.
  unfoldable pub write : ℕ → Option ℕ → Pool → Pool
  write index latency p = elim (get_elem? servers index) [
    | none ↦ p
    | some server ↦ record p {
      results = set p.results index (some (record { server = server; latency_ms = latency }));
    }
  ]

  -- The probe of worker `w` settles, and the worker runs up to its next `await`.
  unfoldable pub settle : ℕ → Option ℕ → Pool → Pool
  unfolding write claim
  settle w latency p = elim (get_or p.busy w none) [
    | none ↦ p
    | some index ↦
        let p' = write index latency p in
        record p' { next = (claim p'.next).1; busy = set p'.busy w (claim p'.next).0 }
  ]

  unfoldable pub settles : List (ℕ × Option ℕ) → Pool → Pool
  settles [] p = p
  settles ((w, latency) ∷ rest) p = settles rest (settle w latency p)
