-- ===== src/Scan/Examples.antt =====
-- The theorems about radio_server/scan/engine.py at concrete inputs.
use radio_server.Base.{ℕ, true, false, ◌≡◌, refl, List, [], ◌∷◌, some}
use radio_server.Arbiter
use radio_server.Arbiter.{RadioArbiter, acquire_tx}
use radio_server.Scan.{
  carrier, timed, ScanPlan, active_channels, unlocked, is_in, new, tick, start, begin_listen,
  begin_dwell, advance, read_busy, sweep, sweep_from,
}
use radio_server.Scan.Ticks.{IsSound}
use radio_server.Scan.Ticks.Run.{run, run-IsSound}
use radio_server.Scan.Sweep.{Swept, visits, first_busy, sweep_exact}

abbrev plan : ScanPlan
plan = record { channels = 145 ∷ 146 ∷ 147 ∷ []; lockout = 146 ∷ []; priority = some 440 }

abbrev free : RadioArbiter
free = Arbiter.new false

abbrev keyed : RadioArbiter
keyed = record free { is_transmitting = true }

-- Start, hear nothing, peek at the busy priority channel, be paused, and resume.
abbrev ticks : List (RadioArbiter × ℕ)
ticks = (free, 0) ∷ (free, 1) ∷ (keyed, 2) ∷ (free, 9) ∷ []

priority_dwelt : (run timed 5 1 plan (new (false ∷ true ∷ [])) ticks).current_freq ≡ some 147
unfolding run tick start begin_listen begin_dwell advance read_busy active_channels unlocked is_in
priority_dwelt = refl

run-IsSound_example : IsSound timed plan (run timed 5 1 plan (new (false ∷ true ∷ [])) ticks)
run-IsSound_example = run-IsSound timed 5 1 plan (false ∷ true ∷ []) ticks

sweep_finds : (sweep carrier 5 1 plan (new (false ∷ false ∷ true ∷ []))).0 ≡ some 147
unfolding sweep sweep_from read_busy active_channels unlocked is_in
sweep_finds = refl

sweep_exact_example :
    Swept
      (first_busy (visits plan.priority 0 (active_channels plan)) (false ∷ false ∷ true ∷ []))
      (sweep carrier 5 1 plan (new (false ∷ false ∷ true ∷ [])))
sweep_exact_example = sweep_exact carrier 5 1 plan (new (false ∷ false ∷ true ∷ []))
