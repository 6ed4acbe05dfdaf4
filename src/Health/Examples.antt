-- ===== src/Health/Examples.antt =====
-- packets/routing/rtengine/health.py: the theorems at a small configuration, and tests.
use packets.Base.{ℕ, ◌≡◌, refl, min, List, [], ◌∷◌, arith, count_if}
use packets.Health.Monitor.{
  HealthConfig, HealthMonitor, down, new, start, probe, loop_status, recent_flaps, note_peer_flap,
  max_flaps,
}
use packets.Health.Flaps.{Op, flap, reading, run, recent, flap_times, recent_flaps-exact}
use packets.Health.Probes.{probe_all, probe_all-down}

abbrev config : HealthConfig
config = record { interval = 1000; lag_threshold = 50; flap_window = 300000; down_factor = 10 }

-- Two flaps, a reading, and a third flap when the first has left the window.
abbrev bouncing : List Op
bouncing = flap 1000 ∷ flap 200000 ∷ reading 250000 ∷ flap 310000 ∷ []

two_recent : (recent_flaps config 320000 (run config bouncing new)).1 ≡ 2
unfolding recent_flaps new note_peer_flap
two_recent = refl

recent_flaps-exact_example :
    (recent_flaps config 320000 (run config bouncing new)).1
    ≡ min max_flaps (count_if (recent config.flap_window 320000) (flap_times bouncing))
recent_flaps-exact_example =
    recent_flaps-exact config 320000 bouncing
      (omega arith, (omega arith, (omega arith, (omega arith, (omega arith, tt)))))

abbrev started : HealthMonitor
started = start config 0 new

abbrev late_instants : List ℕ
late_instants = 2000 ∷ 4000 ∷ 6000 ∷ []

probe_all-down_example : loop_status config 6500 (probe_all config late_instants started) ≡ down
unfolding start new probe
probe_all-down_example =
    probe_all-down config late_instants 6500 started refl
      (omega arith, (omega arith, (omega arith, tt))) (omega arith)
