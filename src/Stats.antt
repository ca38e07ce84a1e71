-- ===== src/Stats.antt =====
-- src/stats/session.ts: `TrafficSession`, the totals of a VPN session over engine restarts. Byte
-- counters are whole numbers below 2^53, where the source's additions are exact.
pub mod Totals
pub mod Generations
mod Tests
use react_native_nitro_xray.Prelude.{ltb, if◌then◌else◌, text_eq, ℕ, ◌+◌, Bool, true, false, ◌||◌}

-- `TrafficStats` of src/specs/nitro-xray-core.nitro.ts.
pub record TrafficStats : Type 0 where
  pub uplink : ℕ
  pub downlink : ℕ

pub record TrafficSession : Type 0 where
  pub baseline_up : ℕ
  pub baseline_down : ℕ
  pub last_raw_up : ℕ
  pub last_raw_down : ℕ
  pub suspended : Bool

-- The fields of a new object.
abbrev pub fresh : TrafficSession
fresh = record {
  baseline_up = 0;
  baseline_down = 0;
  last_raw_up = 0;
  last_raw_down = 0;
  suspended = false;
}

-- The branch of `update` that banks the counters of an engine that is gone.
unfoldable pub bank_if_restarted : TrafficSession → TrafficStats → TrafficSession
bank_if_restarted s raw =
    if ltb raw.uplink s.last_raw_up || ltb raw.downlink s.last_raw_down
    then (record s {
      baseline_up = s.baseline_up + s.last_raw_up;
      baseline_down = s.baseline_down + s.last_raw_down;
    })
    else s

-- The last lines of `update`.
unfoldable pub record_raw : TrafficSession → TrafficStats → TrafficSession × TrafficStats
record_raw s raw = (
  record s { last_raw_up = raw.uplink; last_raw_down = raw.downlink },
  record { uplink = s.baseline_up + raw.uplink; downlink = s.baseline_down + raw.downlink },
)

unfoldable pub update : TrafficSession → TrafficStats → TrafficSession × TrafficStats
unfolding bank_if_restarted record_raw
update s raw =
    if s.suspended
    then (
      s,
      record {
        uplink = s.baseline_up + s.last_raw_up;
        downlink = s.baseline_down + s.last_raw_down;
      },
    )
    else record_raw (bank_if_restarted s raw) raw

unfoldable pub suspend : TrafficSession → TrafficSession
suspend s = record s { suspended = true }

unfoldable pub commit_restart : TrafficSession → TrafficSession
commit_restart s = record {
  baseline_up = s.baseline_up + s.last_raw_up;
  baseline_down = s.baseline_down + s.last_raw_down;
  last_raw_up = 0;
  last_raw_down = 0;
  suspended = false;
}

unfoldable pub reset : TrafficSession → TrafficSession
reset s = record {
  baseline_up = 0;
  baseline_down = 0;
  last_raw_up = 0;
  last_raw_down = 0;
  suspended = false;
}
