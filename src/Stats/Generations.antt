-- ===== src/Stats/Generations.antt =====
-- The totals of a `TrafficSession` against the counters of the engines that ran in the session.
use react_native_nitro_xray.Prelude.{ℕ, ◌+◌, ◌≡◌, refl, false, List, [], ◌∷◌, arith}
use react_native_nitro_xray.Stats.{TrafficStats, TrafficSession, update, suspend, commit_restart}
use react_native_nitro_xray.Stats.Totals.{totals, AtMost}

-- The polls of one engine: each reads at least what the one before it read.
pub data Rising : TrafficStats → List TrafficStats → TrafficStats → Type 0 where
  stop : {a : TrafficStats} → Rising a [] a
  poll :
      {a c : TrafficStats} (b : TrafficStats) {rest : List TrafficStats}
      → AtMost a b
      → Rising b rest c
      → Rising a (b ∷ rest) c

unfoldable pub samples : List TrafficStats → TrafficSession → TrafficSession
samples [] s = s
samples (raw ∷ rest) s = samples rest (update s raw).0

-- One engine of a session: the polls that fell into the restart before it, the polls of the engine
-- and the counters that the last one read.
pub record Generation : Type 0 where
  pub gap : List TrafficStats
  pub polls : List TrafficStats
  pub final : TrafficStats
  pub rising : Rising (record { uplink = 0; downlink = 0 }) polls final

-- A restart that the state events announce: 'connecting', polls, 'connected', polls.
unfoldable pub play : List Generation → TrafficSession → TrafficSession
play [] s = s
play (g ∷ gs) s = play gs (samples g.polls (commit_restart (samples g.gap (suspend s))))

abbrev pub sum_up : List Generation → ℕ
sum_up [] = 0
sum_up (g ∷ gs) = g.final.uplink + sum_up gs

abbrev pub sum_down : List Generation → ℕ
sum_down [] = 0
sum_down (g ∷ gs) = g.final.downlink + sum_down gs

-- The session counts from `up` and `down` on and has read `last` of its engine.
record Counts (up down : ℕ) (last : TrafficStats) (s : TrafficSession) : Type 0 where
  base_up : s.baseline_up ≡ up
  base_down : s.baseline_down ≡ down
  last_up : s.last_raw_up ≡ last.uplink
  last_down : s.last_raw_down ≡ last.downlink
  running : s.suspended ≡ false

update-Counts :
    {up down : ℕ} {a b : TrafficStats} {s : TrafficSession}
    → Counts up down a s
    → AtMost a b
    → Counts up down b (update s b).0
unfolding update
update-Counts c h = ground arith

samples-Counts :
    {up down : ℕ} {a b : TrafficStats} {l : List TrafficStats} {s : TrafficSession}
    → Rising a l b
    → Counts up down a s
    → Counts up down b (samples l s)
unfolding samples
samples-Counts stop c = c
samples-Counts (poll b h r) c = samples-Counts r (update-Counts c h)

samples-suspend : (l : List TrafficStats) (s : TrafficSession) → samples l (suspend s) ≡ suspend s
unfolding samples update suspend
samples-suspend [] s = refl
samples-suspend (raw ∷ l) s = samples-suspend l s

commit_restart-Counts :
    (s : TrafficSession)
    → Counts
        (totals s).uplink
        (totals s).downlink
        (record { uplink = 0; downlink = 0 })
        (commit_restart (suspend s))
unfolding commit_restart suspend totals
commit_restart-Counts s = ground arith

Counts-totals :
    {up down : ℕ} {a : TrafficStats} (s : TrafficSession)
    → Counts up down a s
    → (totals s).uplink ≡ up + a.uplink × (totals s).downlink ≡ down + a.downlink
unfolding totals
Counts-totals s c = ground arith

generation-totals :
    (g : Generation) (s : TrafficSession)
    → let s' = samples g.polls (commit_restart (samples g.gap (suspend s))) in
      ((totals s').uplink ≡ (totals s).uplink + g.final.uplink)
      × ((totals s').downlink ≡ (totals s).downlink + g.final.downlink)
generation-totals g s =
    rw (samples-suspend g.gap s)
      (Counts-totals _ (samples-Counts g.rising (commit_restart-Counts s)))

-- Restarts that the state events announce lose nothing and count nothing twice, also where a new
-- engine has overtaken the old one before its first poll and whatever is polled in the gaps: the
-- totals grow by exactly the sum of the last polled counters of each engine.
pub play-totals :
    (gs : List Generation) (s : TrafficSession)
    → ((totals (play gs s)).uplink ≡ (totals s).uplink + sum_up gs)
      × ((totals (play gs s)).downlink ≡ (totals s).downlink + sum_down gs)
unfolding play
play-totals [] s = (omega arith, omega arith)
play-totals (g ∷ gs) s =
    let s' = samples g.polls (commit_restart (samples g.gap (suspend s))) in
    let one = generation-totals g s in
    let more = play-totals gs s' in (omega (arith, one.0, more.0), omega (arith, one.1, more.1))
