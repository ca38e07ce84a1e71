-- ===== src/Stats/Tests.antt =====
-- Runs of src/stats/session.ts, and its theorems at concrete sessions.
use react_native_nitro_xray.Prelude.{ℕ, ◌+◌, ◌≡◌, refl, [], ◌∷◌, arith}
use react_native_nitro_xray.Stats.{TrafficStats, fresh, update}
use react_native_nitro_xray.Stats.Totals.{
  totals, AtMost, on_sample, on_suspend, on_commit, calls, update_monotone,
}
use react_native_nitro_xray.Stats.Generations.{stop, poll, Generation, play, play-totals}

abbrev bytes : ℕ → ℕ → TrafficStats
bytes up down = record { uplink = up; downlink = down }

-- The first test of src/stats/__tests__/session.test.ts: a restart that the poll shows.
folded :
    (update (update (update fresh (bytes 100 200)).0 (bytes 0 0)).0 (bytes 10 20)).1 ≡ bytes 110 220
unfolding update
folded = refl

abbrev engine : Generation
engine = record {
  gap = bytes 7 7 ∷ [];
  polls = bytes 5 0 ∷ bytes 9 40 ∷ [];
  final = bytes 9 40;
  rising = poll (bytes 5 0) (omega arith) (poll (bytes 9 40) (omega arith) stop);
}

play-totals_example :
    ((totals (play (engine ∷ engine ∷ []) fresh)).uplink ≡ (totals fresh).uplink + 18)
    × ((totals (play (engine ∷ engine ∷ []) fresh)).downlink ≡ (totals fresh).downlink + 80)
play-totals_example = play-totals (engine ∷ engine ∷ []) fresh

update_monotone_example :
    let polled = update fresh (bytes 3 4) in
    let later =
      update (calls (on_suspend ∷ on_sample (bytes 0 0) ∷ on_commit ∷ []) polled.0) (bytes 1 1) in
    AtMost polled.1 later.1 × (later.1 ≡ totals later.0)
update_monotone_example =
    update_monotone fresh (bytes 3 4) (bytes 1 1)
      (on_suspend ∷ on_sample (bytes 0 0) ∷ on_commit ∷ [])
