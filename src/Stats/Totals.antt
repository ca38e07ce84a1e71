-- ===== src/Stats/Totals.antt =====
-- The totals of a `TrafficSession` never fall before a reset.
use react_native_nitro_xray.Prelude.{◌+◌, ◌≤◌, ◌≡◌, List, [], ◌∷◌, arith}
use react_native_nitro_xray.Stats.{TrafficStats, TrafficSession, update, suspend, commit_restart}

-- What the session has counted so far.
unfoldable pub totals : TrafficSession → TrafficStats
totals s = record {
  uplink = s.baseline_up + s.last_raw_up;
  downlink = s.baseline_down + s.last_raw_down;
}

-- `a` is at most `b` in both counters.
pub record AtMost (a b : TrafficStats) : Type 0 where
  pub up : a.uplink ≤ b.uplink
  pub down : a.downlink ≤ b.downlink

-- The calls between two resets.
pub data Call : Type 0 where
  on_sample : TrafficStats → Call
  on_suspend : Call
  on_commit : Call

unfoldable pub call : Call → TrafficSession → TrafficSession
call (on_sample raw) s = (update s raw).0
call on_suspend s = suspend s
call on_commit s = commit_restart s

unfoldable pub calls : List Call → TrafficSession → TrafficSession
calls [] s = s
calls (c ∷ cs) s = calls cs (call c s)

pub update-eq-totals :
    (s : TrafficSession) (raw : TrafficStats) → (update s raw).1 ≡ totals (update s raw).0
unfolding update totals
update-eq-totals s raw = ground arith

pub AtMost-refl : (a : TrafficStats) → AtMost a a
AtMost-refl a = record { up = omega arith; down = omega arith }

pub AtMost-trans : {a b c : TrafficStats} → AtMost a b → AtMost b c → AtMost a c
AtMost-trans h k = omega arith

call-AtMost_sample :
    (s : TrafficSession) (raw : TrafficStats) → AtMost (totals s) (totals (update s raw).0)
unfolding update totals
call-AtMost_sample s raw = ground arith

call-AtMost : (c : Call) (s : TrafficSession) → AtMost (totals s) (totals (call c s))
unfolding call update totals suspend commit_restart
call-AtMost (on_sample raw) s = call-AtMost_sample s raw
call-AtMost on_suspend s = ground arith
call-AtMost on_commit s = ground arith

pub calls-AtMost : (cs : List Call) (s : TrafficSession) → AtMost (totals s) (totals (calls cs s))
unfolding calls
calls-AtMost [] s = AtMost-refl (totals s)
calls-AtMost (c ∷ cs) s = AtMost-trans (call-AtMost c s) (calls-AtMost cs (call c s))

-- Whatever samples, suspensions and commits come between two polls, the second `update` returns at
-- least the first's uplink and downlink, and what it returns is what the session then holds.
pub update_monotone :
    (s : TrafficSession) (first second : TrafficStats) (cs : List Call)
    → let polled = update s first in
      let later = update (calls cs polled.0) second in
      AtMost polled.1 later.1 × (later.1 ≡ totals later.0)
update_monotone s first second cs =
    let polled = update s first in
    let t = calls cs polled.0 in
    (
      rw (update-eq-totals s first, update-eq-totals t second)
          (AtMost-trans (calls-AtMost cs polled.0) (call-AtMost_sample t second)),
      update-eq-totals t second,
    )
