-- ===== src/Lock/Tests.antt =====
-- Runs of src/lock.ts, and its theorems at concrete schedules.
use react_native_nitro_xray.Prelude.{List, [], not, refl, true, ◌==◌, ◌∷◌, ◌≡◌, ◌≤◌}
use react_native_nitro_xray.Lock.{
  pending, fulfilled, rejected, with_lock, start_op, settle_op, release_chain, update_at, Event,
  call, start, settle, release, step, run,
}
use react_native_nitro_xray.Lock.Invariant.{running, InOrder, run-exclusive}
use react_native_nitro_xray.Lock.Progress.{Outcomes, turns, Finished, turns-Finished}

-- Two calls; the second is tried while the first runs, and runs after the first has rejected.
abbrev schedule : List Event
schedule = call ∷ call ∷ start 0 ∷ start 1 ∷ settle 0 rejected ∷ start 1 ∷ release 0 ∷ start 1 ∷ []

after_schedule :
    run schedule []
    ≡ record { started = true; run = pending; chain = pending }
      ∷ record { started = true; run = rejected; chain = fulfilled }
      ∷ []
unfolding run step with_lock update_at start_op settle_op release_chain
after_schedule = refl

run-exclusive_example : (running (run schedule []) ≤ 1) × InOrder (run schedule [])
run-exclusive_example = run-exclusive schedule

abbrev second_fails : Outcomes
second_fails k = not (k == 1)

turns-Finished_example :
    Finished second_fails
      (run schedule [])
      (run (turns second_fails (run schedule [])) (run schedule []))
turns-Finished_example = turns-Finished second_fails (run schedule [])
