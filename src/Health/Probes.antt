-- ===== src/Health/Probes.antt =====
-- packets/routing/rtengine/health.py: the status of the loop after its probes.
use packets.Base.{ℕ, zero, suc, ◌+◌, ◌*◌, ◌≤◌, ◌<◌, ◌≡◌, true, List, [], ◌∷◌, length, arith}
use packets.Health.Monitor.{
  HealthConfig, HealthMonitor, ok, down, probe, loop_status, lateness, severe_line,
}

module _ (c : HealthConfig) where
  abbrev pub probe_all : List ℕ → HealthMonitor → HealthMonitor
  probe_all [] m = m
  probe_all (now ∷ nows) m = probe_all nows (probe c now m)

  -- Every probe is later than the line past which the loop is down.
  abbrev pub Late : List ℕ → HealthMonitor → Type 0
  Late [] m = Unit
  Late (now ∷ nows) m = (severe_line c now < lateness c now m.due) × Late nows (probe c now m)

  probe-severe_run :
      (now : ℕ) (m : HealthMonitor)
      → m.active ≡ true
      → severe_line c now < lateness c now m.due
      → ((probe c now m).active ≡ true) × ((probe c now m).severe_run ≡ m.severe_run + 1)
  unfolding probe
  probe-severe_run now m on late = ground arith

  probe_all-severe_run :
      (nows : List ℕ) (m : HealthMonitor)
      → m.active ≡ true
      → Late nows m
      → (probe_all nows m).severe_run ≡ m.severe_run + length nows
  probe_all-severe_run [] m on late = omega arith
  probe_all-severe_run (now ∷ nows) m on late =
      let one = probe-severe_run now m on late.0 in
      let rest = probe_all-severe_run nows (probe c now m) one.0 late.1 in
      omega (arith, one.1, rest)

  -- At least three probes in a row past that line put the loop down, whatever came before and
  -- whenever the status is asked for.
  pub probe_all-down :
      (nows : List ℕ) (later : ℕ) (m : HealthMonitor)
      → m.active ≡ true
      → Late nows m
      → 3 ≤ length nows
      → loop_status c later (probe_all nows m) ≡ down
  unfolding loop_status
  probe_all-down nows later m on late three =
      let run = probe_all-severe_run nows m on late in ground arith

  le-times : (a b : ℕ) → 1 ≤ b → a ≤ a * b
  le-times a zero h = absurd (omega arith)
  le-times a (suc b) h = grind arith

  -- If the factor of the severe line is positive, a probe that is within the lag threshold makes the
  -- loop ok, whatever came before, until the next one is overdue by more than three intervals.
  pub probe-ok :
      (now later : ℕ) (m : HealthMonitor)
      → m.active ≡ true
      → lateness c now m.due ≤ c.lag_threshold
      → 1 ≤ c.down_factor
      → later ≤ now + c.interval + c.interval * 3
      → loop_status c later (probe c now m) ≡ ok
  unfolding loop_status probe
  probe-ok now later m on small factor soon =
      let line = le-times c.lag_threshold c.down_factor factor in grind (arith, on)
