-- ===== src/Lock.antt =====
-- src/lock.ts: `createSerialLock`. Each call of `withLock` makes two promises: `run`, which the
-- caller gets, and the next `chain`. The event loop runs their reactions one at a time, in any order
-- that the promises allow; a run of the program is a list of such events.
pub mod Invariant
pub mod Progress
mod Tests
use react_native_nitro_xray.Prelude.{
  ◌==◌, if◌then◌else◌, length, text_eq, ℕ, Bool, true, false, not, ◌&&◌, List, [], ◌∷◌,
}

pub data Status : Type 0 where
  pending fulfilled rejected : Status

abbrev pub is_settled : Status → Bool
is_settled pending = false
is_settled _ = true

-- One call of `withLock`: whether `op` has been called, `run`, and the `chain` made from it.
pub record Entry : Type 0 where
  pub started : Bool
  pub run : Status
  pub chain : Status

-- The calls so far, the newest first.
abbrev pub Calls : Type 0
Calls = List Entry

-- The variable `chain`: at first `Promise.resolve()`.
abbrev pub chain_of : Calls → Status
chain_of [] = fulfilled
chain_of (e ∷ older) = e.chain

-- `withLock(op)`: `run` and `chain` are pending, and `op` waits for the chain before it.
unfoldable pub with_lock : Calls → Calls
with_lock calls = record { started = false; run = pending; chain = pending } ∷ calls

-- A reaction of one call, which may read the chain that the older calls have left.
abbrev pub Job : Type 0
Job = Calls → Entry → Entry

-- `chain.then(op, op)`: once the older chain has settled, either way, `op` is called.
unfoldable pub start_op : Job
start_op older e = if is_settled (chain_of older) then record e { started = true } else e

-- The promise that `op` returned settles, and `run` with it.
unfoldable pub settle_op : Status → Job
settle_op outcome older e =
    if e.started && not (is_settled e.run) then record e { run = outcome } else e

-- `run.then(() => undefined, () => undefined)`: the chain is fulfilled whatever `run` became.
unfoldable pub release_chain : Job
release_chain older e = if is_settled e.run then record e { chain = fulfilled } else e

-- Runs a job of the call with `k` calls before it.
unfoldable pub update_at : ℕ → Job → Calls → Calls
update_at k job [] = []
update_at k job (e ∷ older) =
    if length older == k then job older e ∷ older else e ∷ update_at k job older

pub data Event : Type 0 where
  call : Event
  start : ℕ → Event
  settle : ℕ → Status → Event
  release : ℕ → Event

unfoldable pub step : Event → Calls → Calls
step call calls = with_lock calls
step (start k) calls = update_at k start_op calls
step (settle k outcome) calls = update_at k (settle_op outcome) calls
step (release k) calls = update_at k release_chain calls

unfoldable pub run : List Event → Calls → Calls
run [] calls = calls
run (e ∷ es) calls = run es (step e calls)
