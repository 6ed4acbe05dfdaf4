-- ===== src/Health/Monitor.antt =====
-- packets/routing/rtengine/health.py: `worst` and `HealthMonitor`. Instants and intervals are
-- milliseconds of the monotonic clock.
use packets.Base.{
  ℕ, ◌+◌, ◌-◌, ◌*◌, max, String, Bool, true, false, ◌==◌, string_key, Option, none, some, List, [],
  ◌∷◌, ◌++◌, length, ltb, leb, if◌then◌else◌,
}

pub data Status : Type 0 where
  ok : Status
  degraded : Status
  down : Status

-- `_SEVERITY`
abbrev pub severity : Status → ℕ
severity ok = 0
severity degraded = 1
severity down = 2

-- A status string as `_SEVERITY.get(status, _SEVERITY[DEGRADED])` reads it.
abbrev pub recognised : String → Status
recognised text = if text == "ok" then ok else if text == "down" then down else degraded

-- The body of the loop of `worst`.
abbrev pub worse : Status → Option String → Status
worse found none = found
worse found (some text) =
    if ltb (severity found) (severity (recognised text)) then recognised text else found

abbrev pub worst_from : Status → List (Option String) → Status
worst_from found [] = found
worst_from found (s ∷ ss) = worst_from (worse found s) ss

-- `worst`
unfoldable pub worst : List (Option String) → Status
worst statuses = worst_from ok statuses

-- `maxlen` of `_flaps`, `SUSTAIN_PROBES` and `DEAD_PROBES`
abbrev pub max_flaps : ℕ
max_flaps = 1024

abbrev pub sustain_probes : ℕ
sustain_probes = 3

abbrev pub dead_probes : ℕ
dead_probes = 3

pub record HealthConfig : Type 0 where
  pub interval : ℕ
  pub lag_threshold : ℕ
  pub flap_window : ℕ
  pub down_factor : ℕ

-- `HealthMonitor`, less the mean lag, the batchers and the components; `scheduled` says whether
-- `_handle` is set.
pub record HealthMonitor : Type 0 where
  pub flaps : List ℕ
  pub peer_flaps : ℕ
  pub severe_run : ℕ
  pub active : Bool
  pub lag : ℕ
  pub max_lag : ℕ
  pub probes : ℕ
  pub over_threshold : ℕ
  pub due : Option ℕ
  pub scheduled : Bool

unfoldable pub new : HealthMonitor
new = record {
  flaps = [];
  peer_flaps = 0;
  severe_run = 0;
  active = false;
  lag = 0;
  max_lag = 0;
  probes = 0;
  over_threshold = 0;
  due = none;
  scheduled = false;
}

abbrev pub tail : List ℕ → List ℕ
tail [] = []
tail (t ∷ ts) = ts

-- `append` on a full `deque` discards at the other end.
abbrev pub push : ℕ → List ℕ → List ℕ
push t ts = if ltb (length ts) max_flaps then ts ++ t ∷ [] else tail ts ++ t ∷ []

-- `note_peer_flap`
unfoldable pub note_peer_flap : ℕ → HealthMonitor → HealthMonitor
note_peer_flap now m = record m { peer_flaps = m.peer_flaps + 1; flaps = push now m.flaps }

-- The loop of `recent_flaps`; `flaps[0] < now - window`, without the negative numbers.
abbrev pub forget : ℕ → ℕ → List ℕ → List ℕ
forget window now [] = []
forget window now (t ∷ ts) =
    let rest = forget window now ts in if ltb (t + window) now then rest else t ∷ ts

-- `recent_flaps`
unfoldable pub recent_flaps : HealthConfig → ℕ → HealthMonitor → HealthMonitor × ℕ
recent_flaps c now m =
    let kept = forget c.flap_window now m.flaps in (record m { flaps = kept }, length kept)

module _ (c : HealthConfig) (now : ℕ) where
  -- `start`
  unfoldable pub start : HealthMonitor → HealthMonitor
  start m = record m {
    active = true;
    due = if m.scheduled then m.due else some (now + c.interval);
    scheduled = true;
  }

  abbrev pub lateness : Option ℕ → ℕ
  lateness none = 0
  lateness (some due) = now - due

  abbrev pub severe_line : ℕ
  severe_line = c.lag_threshold * c.down_factor

  abbrev pub record_lag : ℕ → HealthMonitor → HealthMonitor
  record_lag lag m = record m {
    probes = m.probes + 1;
    lag = lag;
    max_lag = if ltb m.max_lag lag then lag else m.max_lag;
    over_threshold = m.over_threshold + (if ltb c.lag_threshold lag then 1 else 0);
    severe_run = if ltb severe_line lag then m.severe_run + 1 else 0;
    due = some (now + c.interval);
    scheduled = true;
  }

  -- `_probe`, on a loop
  unfoldable pub probe : HealthMonitor → HealthMonitor
  probe m = if m.active then record_lag (lateness m.due) m else record m { scheduled = false }

  -- `stalled_ms`
  unfoldable pub stalled : HealthMonitor → ℕ
  stalled m = if m.active then lateness m.due else 0

  -- `loop_status`
  unfoldable pub loop_status : HealthMonitor → Status
  unfolding stalled
  loop_status m =
      if leb sustain_probes m.severe_run
      then down
      else if ltb (max severe_line (c.interval * dead_probes)) (stalled m)
      then down
      else if ltb c.lag_threshold m.lag
      then degraded
      else ok

-- `HealthMonitor.stop`
unfoldable pub stop_probing : HealthMonitor → HealthMonitor
stop_probing m = record m { active = false; scheduled = false; due = none; severe_run = 0 }
