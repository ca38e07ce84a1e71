-- ===== src/Urltest/Pool/Invariant.antt =====
-- The state of the workers between two events.
use react_native_nitro_xray.Prelude.{
  Bool-cases, List, Option, Option-cases, [], ap, arith, eqb_iff, get_elem?, get_elem?_of_lt,
  get_or, get_or-replicate, get_or-set_ne, get_or-set_self, inl, inr, length, length-append,
  length-replicate, length-set, ltb, none, refl, set, some, suc, sym, zero, ℕ, ◌+◌, ◌<◌, ◌==◌, ◌∙◌,
  ◌∷◌, ◌≡◌, ◌≢◌, ◌≤◌, ◌⊎◌,
}
use react_native_nitro_xray.Subscription.Types.{ParsedServer}
use react_native_nitro_xray.Urltest.{UrlTestResult}
use react_native_nitro_xray.Urltest.Pool.{
  Pool, claim, add_worker, add_workers, start, write, settle, settles,
}
use react_native_nitro_xray.Urltest.Pool.Counts.{
  one_if, waits, in_flight, slot, filled, in_flight-set, in_flight-concat, lt_of_busy, has_returned,
  returned, returned-set, returned-concat, in_flight-pos,
}

-- Between two events: a server below `next` is waited for by one worker or has its result, and no
-- other server has either; a result is that of the server at its position; and if a worker has
-- returned, no server is left.
module _ (servers : List ParsedServer) where
  pub record IsValid (p : Pool) : Type 0 where
    pub counted : (i : ℕ) → filled p i + in_flight p.busy i ≡ one_if (ltb i p.next)
    pub bounded : p.next ≤ length servers
    pub sized : length p.results ≡ length servers
    pub right :
        (i : ℕ) (r : UrlTestResult) → slot p i ≡ some r → get_elem? servers i ≡ some r.server
    pub idle : (returned p.busy ≡ 0) ⊎ (length servers ≤ p.next)

  -- What a worker takes is counted once more.
  pub claim-counted :
      (n i : ℕ)
      → waits (claim servers n).0 i + one_if (ltb i n) ≡ one_if (ltb i (claim servers n).1)
  unfolding claim
  claim-counted n i = ground arith

  pub claim-bounded : (n : ℕ) → n ≤ length servers → (claim servers n).1 ≤ length servers
  unfolding claim
  claim-bounded n h = ground arith

  pub claim-idle :
      (n : ℕ)
      → (n ≤ (claim servers n).1)
        × ((has_returned (claim servers n).0 ≡ 0) ⊎ (length servers ≤ (claim servers n).1))
  unfolding claim
  claim-idle n = ground arith

  pub add_worker-IsValid : (p : Pool) → IsValid p → IsValid (add_worker servers p)
  unfolding add_worker
  add_worker-IsValid p v = record {
    counted = λ i. omega (
      arith,
      v.counted i,
      in_flight-concat p.busy (claim servers p.next).0 i,
      claim-counted p.next i,
    );
    bounded = claim-bounded p.next v.bounded;
    sized = v.sized;
    right = v.right;
    idle =
        ground (arith, v.idle, returned-concat p.busy (claim servers p.next).0, claim-idle p.next);
  }

  pub add_workers-IsValid : (k : ℕ) (p : Pool) → IsValid p → IsValid (add_workers servers k p)
  unfolding add_workers
  add_workers-IsValid zero p v = v
  add_workers-IsValid (suc k) p v =
      add_workers-IsValid k (add_worker servers p) (add_worker-IsValid p v)

  pub start-IsValid : (concurrency : ℕ) → IsValid (start servers concurrency)
  unfolding start
  start-IsValid concurrency = add_workers-IsValid _ _ (record {
    counted = λ i.
        rw (get_or-replicate {A = Option UrlTestResult} (length servers) i none) (ground arith);
    bounded = omega arith;
    sized = length-replicate (length servers) none;
    right = λ i r h. cc (get_or-replicate {A = Option UrlTestResult} (length servers) i none, h);
    idle = inl refl;
  })

  pub write-busy :
      (p : Pool) (index : ℕ) (latency : Option ℕ)
      → ((write servers index latency p).busy ≡ p.busy)
        × ((write servers index latency p).next ≡ p.next)
  unfolding write
  write-busy p index latency = ground arith

  -- The probe of server `index` has settled.
  module _ (p : Pool) (v : IsValid p) (index : ℕ) (latency : Option ℕ)
      (inside : index < length servers) where
    room : index < length p.results
    room = omega (arith, v.sized)

    length-write : length (write servers index latency p).results ≡ length servers
    unfolding write
    length-write =
        let (server, found) = get_elem?_of_lt servers index inside in
        rw (found, write)
          (length-set p.results index (some (record { server = server; latency_ms = latency }))
            ∙ v.sized)

    slot-write_self :
        (r : UrlTestResult)
        → slot (write servers index latency p) index ≡ some r
        → get_elem? servers index ≡ some r.server
    unfolding write
    slot-write_self r h =
        let (server, found) = get_elem?_of_lt servers index inside in
        let new : UrlTestResult = record { server = server; latency_ms = latency } in
        let e = get_or-set_self p.results index (some new) none room in ground (arith, found, e)

    filled-write_self : filled (write servers index latency p) index ≡ 1
    unfolding write
    filled-write_self =
        let (server, found) = get_elem?_of_lt servers index inside in
        let new : UrlTestResult = record { server = server; latency_ms = latency } in
        let e = get_or-set_self p.results index (some new) none room in
        rw (found, write) (rw e refl)

    slot-write_ne : (j : ℕ) → index ≢ j → slot (write servers index latency p) j ≡ slot p j
    unfolding write
    slot-write_ne j ne =
        let (server, found) = get_elem?_of_lt servers index inside in
        let new : UrlTestResult = record { server = server; latency_ms = latency } in
        rw (found, write) (get_or-set_ne p.results index j (some new) none ne)

    right-write :
        (j : ℕ) (r : UrlTestResult)
        → slot (write servers index latency p) j ≡ some r
        → get_elem? servers j ≡ some r.server
    right-write j r h = elim (Bool-cases (index == j)) [
      | inl same ↦ let e = (eqb_iff index j).0 same in rw (← e) (slot-write_self r (rw (← e) at h))
      | inr other ↦ v.right j r (sym (slot-write_ne j (λ e. cc ((eqb_iff index j).1 e))) ∙ h)
    ]

    filled-write :
        (j : ℕ)
        → filled p index ≡ 0
        → filled (write servers index latency p) j ≡ filled p j + one_if (index == j)
    filled-write j empty = elim (Bool-cases (index == j)) [
      | inl same ↦
          let e = (eqb_iff index j).0 same in
          rw same (rw (← e) (omega (arith, filled-write_self, empty)))
      | inr other ↦ rw (other, slot-write_ne j (λ e. cc ((eqb_iff index j).1 e))) (omega arith)
    ]

  -- Worker `w` goes on, when the result of its server has been written.
  pub advance-IsValid :
      (p : Pool) (w index : ℕ)
      → get_or p.busy w none ≡ some index
      → ((i : ℕ) → filled p i + in_flight p.busy i ≡ one_if (ltb i p.next) + one_if (index == i))
      → p.next ≤ length servers
      → length p.results ≡ length servers
      → ((i : ℕ) (r : UrlTestResult) → slot p i ≡ some r → get_elem? servers i ≡ some r.server)
      → (returned p.busy ≡ 0) ⊎ (length servers ≤ p.next)
      → IsValid (record p {
        next = (claim servers p.next).1;
        busy = set p.busy w (claim servers p.next).0;
      })
  advance-IsValid p w index h counted bounded sized right idle = record {
    counted = λ i.
        let e = in_flight-set p.busy w (claim servers p.next).0 i (lt_of_busy p.busy w h) in
        omega (arith, rw h at e, counted i, claim-counted p.next i);
    bounded = claim-bounded p.next bounded;
    sized = sized;
    right = right;
    idle =
        let e = returned-set p.busy w (claim servers p.next).0 (lt_of_busy p.busy w h) in
        ground (arith, rw h at e, idle, claim-idle p.next);
  }

  pub taken :
      (p : Pool) (w index : ℕ)
      → IsValid p
      → get_or p.busy w none ≡ some index
      → (index < p.next) × (filled p index ≡ 0)
  taken p w index v h = ground (arith, v.counted index, in_flight-pos p.busy w index h)

  pub settle-IsValid :
      (p : Pool) (w : ℕ) (latency : Option ℕ) → IsValid p → IsValid (settle servers w latency p)
  unfolding settle
  settle-IsValid p w latency v = elim (Option-cases (get_or p.busy w none)) [
    | inl h ↦ rw (h, settle) v
    | inr (index, h) ↦
        let (below, empty) = taken p w index v h in
        let inside : index < length servers = omega (arith, v.bounded) in
        let (busy, next) = write-busy p index latency in
        let counted : (i : ℕ)
            → filled (write servers index latency p) i + in_flight p.busy i
              ≡ one_if (ltb i p.next) + one_if (index == i) =
          λ i. omega (arith, v.counted i, filled-write p v index latency inside i empty) in
        rw (h, settle)
          (advance-IsValid (write servers index latency p) w index (rw busy h)
            (λ i. rw (busy, next) (counted i)) (rw next v.bounded)
            (length-write p v index latency inside) (right-write p v index latency inside)
            (rw (busy, next) v.idle))
  ]

  pub settles-IsValid :
      (events : List (ℕ × Option ℕ)) (p : Pool) → IsValid p → IsValid (settles servers events p)
  unfolding settles
  settles-IsValid [] p v = v
  settles-IsValid ((w, latency) ∷ rest) p v =
      settles-IsValid rest (settle servers w latency p) (settle-IsValid p w latency v)

  pub settle-workers :
      (p : Pool) (w : ℕ) (latency : Option ℕ)
      → length (settle servers w latency p).busy ≡ length p.busy
  unfolding settle
  settle-workers p w latency = elim (Option-cases (get_or p.busy w none)) [
    | inl h ↦ rw (h, settle) refl
    | inr (index, h) ↦
        rw (h, settle) (length-set _ w _ ∙ ap (λ busy. length busy) (write-busy p index latency).0)
  ]

  pub settles-workers :
      (events : List (ℕ × Option ℕ)) (p : Pool)
      → length (settles servers events p).busy ≡ length p.busy
  unfolding settles
  settles-workers [] p = refl
  settles-workers ((w, latency) ∷ rest) p =
      settles-workers rest (settle servers w latency p) ∙ settle-workers p w latency

  pub add_workers-workers :
      (k : ℕ) (p : Pool) → length (add_workers servers k p).busy ≡ length p.busy + k
  unfolding add_workers add_worker
  add_workers-workers zero p = omega arith
  add_workers-workers (suc k) p = omega (
    arith,
    add_workers-workers k (add_worker servers p),
    length-append p.busy ((claim servers p.next).0 ∷ []),
  )
