-- ===== src/Urltest/Pool/Once.antt =====
-- Every server is probed once, and its result stands at its position.
use Prim.Native.Nat.{min, max}
use react_native_nitro_xray.Prelude.{
  Bool-cases, List, Option, Option-cases, [], arith, eqb_iff, get_elem?, get_or, inl, inr, length,
  length-append, length-set, none, refl, set, some, suc, zero, ℕ, ◌++◌, ◌+◌, ◌-◌, ◌<◌, ◌==◌, ◌∙◌,
  ◌∷◌, ◌≡◌, ◌≢◌, ◌⊎◌,
}
use react_native_nitro_xray.Subscription.Types.{ParsedServer}
use react_native_nitro_xray.Urltest.{UrlTestResult}
use react_native_nitro_xray.Urltest.Pool.{
  Pool, claim, add_worker, add_workers, start, write, settle, settles,
}
use react_native_nitro_xray.Urltest.Pool.Counts.{
  slot, lt_of_busy, has_returned, returned, returned-set, returned-concat, returned_le,
  in_flight-returned, busy-or_returned,
}
use react_native_nitro_xray.Urltest.Pool.Invariant.{
  IsValid, start-IsValid, write-busy, settles-IsValid, settles-workers, add_workers-workers,
}

module _ (servers : List ParsedServer) where
  -- The probes that are still to settle.
  abbrev pub pending : Pool → ℕ
  pending p = (length servers - p.next) + (length p.busy - returned p.busy)

  -- Each event is at a worker that waits for a probe.
  unfoldable pub IsLive : List (ℕ × Option ℕ) → Pool → Type 0
  IsLive [] p = Unit
  IsLive ((w, latency) ∷ rest) p =
      ((index : ℕ) × (get_or p.busy w none ≡ some index)) × IsLive rest (settle servers w latency p)

  claim-pending :
      (n : ℕ)
      → (length servers - (claim servers n).1) + 1
        ≡ (length servers - n) + has_returned (claim servers n).0
  unfolding claim
  claim-pending n = ground arith

  join-pending :
      (p : Pool)
      → pending (record p {
        next = (claim servers p.next).1;
        busy = p.busy ++ (claim servers p.next).0 ∷ [];
      })
        ≡ pending p
  join-pending p = omega (
    arith,
    returned-concat p.busy (claim servers p.next).0,
    length-append p.busy ((claim servers p.next).0 ∷ []),
    claim-pending p.next,
    returned_le p.busy,
    returned_le ((claim servers p.next).0 ∷ []),
  )

  add_worker-pending : (p : Pool) → pending (add_worker servers p) ≡ pending p
  unfolding add_worker
  add_worker-pending p = join-pending p

  add_workers-pending : (k : ℕ) (p : Pool) → pending (add_workers servers k p) ≡ pending p
  unfolding add_workers
  add_workers-pending zero p = refl
  add_workers-pending (suc k) p =
      add_workers-pending k (add_worker servers p) ∙ add_worker-pending p

  start-pending : (concurrency : ℕ) → pending (start servers concurrency) ≡ length servers
  unfolding start
  start-pending concurrency = add_workers-pending _ _ ∙ omega arith

  advance-pending :
      (p : Pool) (w index : ℕ)
      → get_or p.busy w none ≡ some index
      → pending (record p {
        next = (claim servers p.next).1;
        busy = set p.busy w (claim servers p.next).0;
      })
          + 1
        ≡ pending p
  advance-pending p w index h =
      let inside = lt_of_busy p.busy w h in
      let e = returned-set p.busy w (claim servers p.next).0 inside in
      omega (
        arith,
        rw h at e,
        length-set p.busy w (claim servers p.next).0,
        claim-pending p.next,
        returned_le p.busy,
        returned_le (set p.busy w (claim servers p.next).0),
      )

  settle-pending :
      (p : Pool) (w : ℕ) (latency : Option ℕ) (index : ℕ)
      → get_or p.busy w none ≡ some index
      → pending (settle servers w latency p) + 1 ≡ pending p
  unfolding settle
  settle-pending p w latency index h =
      let (busy, next) = write-busy servers p index latency in
      let e = advance-pending (write servers index latency p) w index (rw busy h) in
      rw (h, settle) (e ∙ rw (busy, next) refl)

  -- Each probe that settles leaves one less.
  pub settles-pending :
      (events : List (ℕ × Option ℕ)) (p : Pool)
      → IsLive events p
      → pending (settles servers events p) + length events ≡ pending p
  unfolding settles IsLive
  settles-pending [] p live = omega arith
  settles-pending ((w, latency) ∷ rest) p ((index, h), live) = omega (
    arith,
    settles-pending rest (settle servers w latency p) live,
    settle-pending p w latency index h,
  )

-- The workers have started, and probes that workers wait for have settled, in any order.
module _ (servers : List ParsedServer) (concurrency : ℕ) (events : List (ℕ × Option ℕ))
    (live : IsLive servers events (start servers concurrency)) where
  abbrev final : Pool
  final = settles servers events (start servers concurrency)

  final-pending : pending servers final + length events ≡ length servers
  final-pending =
      settles-pending servers events (start servers concurrency) live
      ∙ start-pending servers concurrency

  final-IsValid : IsValid servers final
  final-IsValid = settles-IsValid servers events _ (start-IsValid servers concurrency)

  final-workers : length final.busy ≡ min (max 1 concurrency) (length servers)
  unfolding start
  final-workers =
      settles-workers servers events (start servers concurrency)
      ∙ (add_workers-workers servers _ _ ∙ omega arith)

  final-waits :
      length events ≢ length servers → (w : ℕ) × (i : ℕ) × (get_or final.busy w none ≡ some i)
  final-waits ne = elim (busy-or_returned final.busy) [
    | inl all ↦ elim (idle-final all) [ ]
    | inr found ↦ found
  ]
    where
      idle-final : returned final.busy ≡ length final.busy → ⊥
      idle-final all = ground (arith, final-pending, final-IsValid.idle, final-workers, all, ne)

  -- `min(max(1, concurrency), servers)` workers run, and either as many probes have settled as there
  -- are servers, or fewer have and a worker waits for one.
  pub settles-live :
      (length final.busy ≡ min (max 1 concurrency) (length servers))
      × ((length events ≡ length servers)
          ⊎ ((length events < length servers)
              × ((w : ℕ) × (i : ℕ) × (get_or final.busy w none ≡ some i))))
  settles-live = (
    final-workers,
    elim (Bool-cases (length events == length servers)) [
      | inl same ↦ inl ((eqb_iff _ _).0 same)
      | inr other ↦
          let ne : length events ≢ length servers = λ e. cc ((eqb_iff _ _).1 e) in
          inr (omega (arith, final-pending, ne), final-waits ne)
    ],
  )

  missing : (i : ℕ) → length events ≡ length servers → i < length servers → slot final i ≡ none → ⊥
  missing i all inside h =
      let returned' : returned final.busy ≡ length final.busy =
        omega (arith, final-pending, returned_le final.busy) in
      ground (
        arith,
        final-IsValid.counted i,
        in_flight-returned final.busy i returned',
        final-pending,
        h,
      )

  -- When as many probes have settled as there are servers, every worker has returned, and at the
  -- position of each server is a result of that server.
  pub settles-probed :
      (i : ℕ)
      → length events ≡ length servers
      → i < length servers
      → (returned final.busy ≡ length final.busy)
        × ((r : UrlTestResult) × (slot final i ≡ some r) × (get_elem? servers i ≡ some r.server))
  settles-probed i all inside = (
    omega (arith, final-pending, returned_le final.busy),
    elim (Option-cases (slot final i)) [
      | inl h ↦ elim (missing i all inside h) [ ]
      | inr (r, h) ↦ (r, h, final-IsValid.right i r h)
    ],
  )
