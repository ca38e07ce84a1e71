-- ===== src/Urltest/Measure.antt =====
-- `measure` of src/urltest/urltest.ts. Times are whole microseconds, of a clock that may step back.
use react_native_nitro_xray.Prelude.{
  Bool, Option, arith, false, if◌then◌else◌, ltb, none, some, true, ℕ, ◌*◌, ◌+◌, ◌-◌, ◌/◌, ◌≡◌, ◌≤◌,
}

-- What ends the race, and the time at which it does: the fetch resolves, the backstop timer fires,
-- or the fetch rejects, with the abort signal raised or not.
pub data Race : Type 0 where
  responded : (now : ℕ) → Race
  backstop : (now : ℕ) → Race
  rejected : (now : ℕ) (aborted : Bool) → Race

-- `Math.max(0, Math.round(now - startedAt))` in milliseconds: halves are rounded up, and a clock that
-- stepped back gives 0.
unfoldable pub elapsed_ms : ℕ → ℕ → ℕ
elapsed_ms started_at now = (now - started_at + 500) / 1000

unfoldable pub measure : ℕ → ℕ → Race → Option ℕ
unfolding elapsed_ms
measure timeout_ms started_at (responded now) = some (elapsed_ms started_at now)
measure timeout_ms started_at (backstop now) = none
measure timeout_ms started_at (rejected now true) = none
measure timeout_ms started_at (rejected now false) =
    if ltb now (started_at + timeout_ms * 1000) then some (elapsed_ms started_at now) else none

-- The timers of the probe: the abort at the timeout, the backstop a quarter of a second later.
abbrev pub deadline : ℕ → ℕ → ℕ
deadline timeout_ms started_at = started_at + (timeout_ms + 250) * 1000

-- A race that the timers allow: the backstop fires at its time and nothing ends the race after it.
pub data IsTimely (timeout_ms started_at : ℕ) : Race → Type 0 where
  responds :
      (now : ℕ)
      → now ≤ deadline timeout_ms started_at
      → IsTimely timeout_ms started_at (responded now)
  fires :
      (now : ℕ)
      → deadline timeout_ms started_at ≤ now
      → IsTimely timeout_ms started_at (backstop now)
  rejects :
      (now : ℕ) (aborted : Bool)
      → now ≤ deadline timeout_ms started_at
      → IsTimely timeout_ms started_at (rejected now aborted)

-- What a latency says of the race: it was ended by a response or by an error that the abort did not
-- cause, and then within the timeout.
abbrev pub HasAnswered : ℕ → ℕ → Race → Type 0
HasAnswered timeout_ms latency (responded now) = Unit
HasAnswered timeout_ms latency (backstop now) = ⊥
HasAnswered timeout_ms latency (rejected now aborted) = (aborted ≡ false) × (latency ≤ timeout_ms)

-- In a race that the timers allow, a reported latency is at most the timeout and the quarter of a
-- second of the backstop; the race was ended by a response, or by an error that the abort did not
-- cause, and then the latency is at most the timeout.
pub measure-HasAnswered :
    (timeout_ms started_at latency : ℕ) (race : Race)
    → IsTimely timeout_ms started_at race
    → measure timeout_ms started_at race ≡ some latency
    → (latency ≤ timeout_ms + 250) × HasAnswered timeout_ms latency race
unfolding measure
measure-HasAnswered timeout_ms started_at latency race (responds now h) e = ground arith
measure-HasAnswered timeout_ms started_at latency race (fires now h) e = cc
measure-HasAnswered timeout_ms started_at latency race (rejects now true h) e = cc
measure-HasAnswered timeout_ms started_at latency race (rejects now false h) e = ground arith
