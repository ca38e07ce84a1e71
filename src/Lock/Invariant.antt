-- ===== src/Lock/Invariant.antt =====
-- No two operations under the lock overlap, and they run in the order of the calls.
use react_native_nitro_xray.Prelude.{
  ◌≤◌, ◌+◌, length, ◌==◌, Bool-cases, inl, inr, All, ◌≡◌, refl, ◌≢◌, ◌⊎◌, true, [], ◌∷◌, arith,
  Bool, ℕ, List, ◌&&◌, if◌then◌else◌, not,
}
use react_native_nitro_xray.Lock.{
  call, start, settle, release, Status, pending, fulfilled, rejected, is_settled, Entry, Calls,
  chain_of, Job, start_op, settle_op, release_chain, update_at, step, run, with_lock, Event,
}

-- `run` settles only after `op` was called, and the chain only after `run`, and never rejected.
pub record IsLinked (e : Entry) : Type 0 where
  pub settled : is_settled e.run ≡ true → e.started ≡ true
  pub released : is_settled e.chain ≡ true → is_settled e.run ≡ true
  pub kept : e.chain ≢ rejected

abbrev pub IsReleased : Entry → Type 0
IsReleased e = e.chain ≡ fulfilled

abbrev pub Ordered : Calls → Type 0
Ordered [] = Unit
Ordered (e ∷ older) = IsLinked e × (e.started ≡ true → All IsReleased older) × Ordered older

-- The older chain is settled only when all older calls are through.
IsReleased-of_chain :
    (calls : Calls) → Ordered calls → is_settled (chain_of calls) ≡ true → All IsReleased calls
IsReleased-of_chain [] h s = tt
IsReleased-of_chain (e ∷ older) (l, before, h) s =
    (chain_fulfilled e l s, before (l.settled (l.released s)))
  where
    chain_fulfilled : (e : Entry) → IsLinked e → is_settled e.chain ≡ true → e.chain ≡ fulfilled
    chain_fulfilled e l s = go e.chain s l.kept
      where
        go : (c : Status) → is_settled c ≡ true → c ≢ rejected → c ≡ fulfilled
        go pending p q = cc
        go fulfilled p q = refl
        go rejected p q = absurd (q refl)

-- What a job has to keep.
record IsFair (job : Job) : Type 0 where
  linked : (older : Calls) (e : Entry) → IsLinked e → IsLinked (job older e)
  starts :
      (older : Calls) (e : Entry)
      → (job older e).started ≡ true
      → (e.started ≡ true) ⊎ (is_settled (chain_of older) ≡ true)
  releases : (older : Calls) (e : Entry) → IsReleased e → IsReleased (job older e)

start_op-IsFair : IsFair start_op
unfolding start_op
start_op-IsFair = record {
  linked = λ older e l. ground (arith, l.settled, l.released, l.kept);
  starts = λ older e h. ground arith;
  releases = λ older e h. ground arith;
}

settle_op-IsFair : (outcome : Status) → IsFair (settle_op outcome)
unfolding settle_op
settle_op-IsFair outcome = record {
  linked = λ older e l. ground (arith, l.settled, l.released, l.kept);
  starts = λ older e h. ground arith;
  releases = λ older e h. ground arith;
}

release_chain-IsFair : IsFair release_chain
unfolding release_chain
release_chain-IsFair = record {
  linked = λ older e l. ground (arith, l.settled, l.released, l.kept);
  starts = λ older e h. ground arith;
  releases = λ older e h. ground arith;
}

update_at-IsReleased :
    (k : ℕ) (job : Job) (calls : Calls)
    → IsFair job
    → All IsReleased calls
    → All IsReleased (update_at k job calls)
unfolding update_at
update_at-IsReleased k job [] f h = tt
update_at-IsReleased k job (e ∷ older) f (p, h) = elim (Bool-cases (length older == k)) [
  | inl here ↦ rw here (f.releases older e p, h)
  | inr later ↦ rw later (p, update_at-IsReleased k job older f h)
]

-- A job of the call at the head.
job-Ordered :
    (job : Job) (e : Entry) (older : Calls)
    → IsFair job
    → Ordered (e ∷ older)
    → Ordered (job older e ∷ older)
job-Ordered job e older f (l, before, h) = (
  f.linked older e l,
  (λ s. elim (f.starts older e s) [
    | inl started ↦ before started
    | inr free ↦ IsReleased-of_chain older h free
  ]),
  h,
)

update_at-Ordered :
    (k : ℕ) (job : Job) (calls : Calls)
    → IsFair job
    → Ordered calls
    → Ordered (update_at k job calls)
unfolding update_at
update_at-Ordered k job [] f h = tt
update_at-Ordered k job (e ∷ older) f h = elim (Bool-cases (length older == k)) [
  | inl here ↦ rw here (job-Ordered job e older f h)
  | inr later ↦
      rw later (
        h.0,
        (λ s. update_at-IsReleased k job older f (h.1 s)),
        update_at-Ordered k job older f h.2,
      )
]

step-Ordered : (ev : Event) (calls : Calls) → Ordered calls → Ordered (step ev calls)
unfolding step with_lock
step-Ordered call calls h =
    (record { settled = λ p. cc; released = λ p. cc; kept = λ p. cc }, (λ p. cc), h)
step-Ordered (start k) calls h = update_at-Ordered k start_op calls start_op-IsFair h
step-Ordered (settle k outcome) calls h =
    update_at-Ordered k (settle_op outcome) calls (settle_op-IsFair outcome) h
step-Ordered (release k) calls h = update_at-Ordered k release_chain calls release_chain-IsFair h

pub run-Ordered : (evs : List Event) (calls : Calls) → Ordered calls → Ordered (run evs calls)
unfolding run
run-Ordered [] calls h = h
run-Ordered (ev ∷ evs) calls h = run-Ordered evs (step ev calls) (step-Ordered ev calls h)

-- An operation that has been called and whose promise has not settled.
abbrev pub is_running : Entry → Bool
is_running e = e.started && not (is_settled e.run)

abbrev pub running : Calls → ℕ
running [] = 0
running (e ∷ older) = (if is_running e then 1 else 0) + running older

abbrev pub IsSettled : Entry → Type 0
IsSettled e = is_settled e.run ≡ true

-- Of each operation that has been called, all those of the calls before it have settled.
abbrev pub InOrder : Calls → Type 0
InOrder [] = Unit
InOrder (e ∷ older) = (e.started ≡ true → All IsSettled older) × InOrder older

-- A call that is through has settled; with `Ordered` none of them runs.
IsSettled-of_IsReleased :
    (calls : Calls) → Ordered calls → All IsReleased calls → All IsSettled calls
IsSettled-of_IsReleased [] h r = tt
IsSettled-of_IsReleased (e ∷ older) (l, before, h) (p, r) =
    (l.released (rw p), IsSettled-of_IsReleased older h r)

none_running : (calls : Calls) → All IsSettled calls → running calls ≡ 0
none_running [] h = refl
none_running (e ∷ older) (p, h) = ground (arith, none_running older h)

Ordered-InOrder : (calls : Calls) → Ordered calls → InOrder calls
Ordered-InOrder [] h = tt
Ordered-InOrder (e ∷ older) (l, before, h) =
    ((λ s. IsSettled-of_IsReleased older h (before s)), Ordered-InOrder older h)

InOrder-exclusive : (calls : Calls) → InOrder calls → running calls ≤ 1
InOrder-exclusive [] h = omega arith
InOrder-exclusive (e ∷ older) (before, h) = elim (Bool-cases e.started) [
  | inl s ↦ ground (arith, none_running older (before s))
  | inr s ↦ ground (arith, InOrder-exclusive older h)
]

-- After any events, in any order and with any outcomes, at most one operation is running, and an
-- operation that has been called has found every operation of an earlier call settled.
pub run-exclusive : (evs : List Event) → (running (run evs []) ≤ 1) × InOrder (run evs [])
run-exclusive evs =
    let h = Ordered-InOrder (run evs []) (run-Ordered evs [] tt) in
    (InOrder-exclusive (run evs []) h, h)
