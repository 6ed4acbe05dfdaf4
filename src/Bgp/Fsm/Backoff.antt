-- ===== src/Bgp/Fsm/Backoff.antt =====
-- fsm.py: the idle-hold backoff.
use native.Mathlib.Nat.{pow-suc}
use packets.Base.{
  ℕ, zero, suc, ◌+◌, ◌*◌, ◌^◌, ◌≤◌, ◌<◌, min, ◌≡◌, ◌≢◌, ◌⊎◌, arith, Bool, true, false, Option, none,
  some, leb, eqb, if◌then◌else◌,
}
use packets.Base.Dict
use packets.Bgp.Fsm.Types.{
  State, idle, connect, active, open_sent, open_confirm, established, Ev, Kw, FsmConfig, Fsm,
  manual_start, manual_stop, automatic_stop, idle_hold, timer_key,
}
use packets.Bgp.Fsm.Ops.{bump_idle_hold, maybe_forgive_idle_hold}
use packets.Bgp.Fsm.Opening.{count_event, not_idle}
use packets.Bgp.Fsm.Machine.{dispatch, event}
use packets.Bgp.Fsm.Invariant.{get-rearm}

-- `n` failures in a row.
unfoldable pub bumped : FsmConfig → ℕ → Fsm → Fsm
bumped c zero s = s
bumped c (suc n) s = bump_idle_hold c (bumped c n s)

module _ (c : FsmConfig) (starts : 0 < c.idle_hold_start)
    (below : c.idle_hold_start ≤ c.idle_hold_max) where
  doubled : (n : ℕ) → 0 < c.idle_hold_start * 2 ^ n
  doubled zero = omega arith
  doubled (suc n) = rw pow-suc (omega (arith, doubled n))

  -- The delay doubles with each failure in a row, from its start up to its ceiling.
  pub idle_hold-bumped :
      (n : ℕ) (s : Fsm)
      → s.idle_hold ≡ 0
      → (bumped c (suc n) s).idle_hold ≡ min (c.idle_hold_start * 2 ^ n) c.idle_hold_max
  unfolding bumped bump_idle_hold
  idle_hold-bumped zero s z = ground arith
  idle_hold-bumped (suc n) s z = rw pow-suc (ground (arith, idle_hold-bumped n s z, doubled n))

-- A session that was up for a minute and a half is forgiven its earlier failures.
abbrev forgiven : ℕ → Option ℕ → ℕ → ℕ
forgiven clock none delay = delay
forgiven clock (some at) delay = if leb (at + 90000) clock then 0 else delay

-- The first failure waits for the start of the delays, each further one twice as long, up to the
-- ceiling.
abbrev grown : FsmConfig → ℕ → ℕ
grown c delay = if eqb delay 0 then c.idle_hold_start else min (2 * delay) c.idle_hold_max

-- The delay after a failure.
abbrev pub charged : FsmConfig → ℕ → Fsm → ℕ
charged c clock s = grown c (forgiven clock s.established_at s.idle_hold)

abbrev pub by_operator : Ev → Bool
by_operator manual_start = true
by_operator manual_stop = true
by_operator automatic_stop = true
by_operator _ = false

-- What an event that no operator caused does to the backoff.
pub record Charges (c : FsmConfig) (clock : ℕ) (s s' : Fsm) : Type 0 where
  pub failure : not_idle s.state ≡ true → s'.state ≡ idle → s'.idle_hold ≡ charged c clock s
  pub retried :
      not_idle s.state ≡ true
      → s'.state ≡ idle
      → c.allow_automatic_start ≡ true
      → 0 < s'.idle_hold
      → Dict.get idle_hold s'.deadlines ≡ some (clock + s'.idle_hold * 1000)
  pub otherwise : (s.state ≡ idle) ⊎ (s'.state ≢ idle) → s'.idle_hold ≡ s.idle_hold

ruleset timers = (get-rearm, Dict.get-remove)

module _ (c : FsmConfig) (clock : ℕ) (kw : Kw) (s : Fsm) where
  abbrev ChargedBy : State → Ev → Type 0
  ChargedBy st ev =
      let s₀ = record s { state = st } in
      by_operator ev ≡ false → Charges c clock s₀ (dispatch c clock st ev kw s₀)

  dispatch_idle-Charges : (ev : Ev) → ChargedBy idle ev
  unfolding dispatch bump_idle_hold maybe_forgive_idle_hold
  dispatch_idle-Charges manual_stop h = cc
  dispatch_idle-Charges _ h = grind (arith, timers)

  dispatch_connect-Charges : (ev : Ev) → ChargedBy connect ev
  unfolding dispatch bump_idle_hold maybe_forgive_idle_hold
  dispatch_connect-Charges manual_stop h = cc
  dispatch_connect-Charges _ h = grind (arith, timers)

  dispatch_active-Charges : (ev : Ev) → ChargedBy active ev
  unfolding dispatch bump_idle_hold maybe_forgive_idle_hold
  dispatch_active-Charges manual_stop h = cc
  dispatch_active-Charges _ h = grind (arith, timers)

  dispatch_open_sent-Charges : (ev : Ev) → ChargedBy open_sent ev
  unfolding dispatch bump_idle_hold maybe_forgive_idle_hold
  dispatch_open_sent-Charges manual_stop h = cc
  dispatch_open_sent-Charges _ h = grind (arith, timers)

  dispatch_open_confirm-Charges : (ev : Ev) → ChargedBy open_confirm ev
  unfolding dispatch bump_idle_hold maybe_forgive_idle_hold
  dispatch_open_confirm-Charges manual_stop h = cc
  dispatch_open_confirm-Charges _ h = grind (arith, timers)

  dispatch_established-Charges : (ev : Ev) → ChargedBy established ev
  unfolding dispatch bump_idle_hold maybe_forgive_idle_hold
  dispatch_established-Charges manual_stop h = cc
  dispatch_established-Charges _ h = grind (arith, timers)

  dispatch-Charges : (st : State) (ev : Ev) → ChargedBy st ev
  dispatch-Charges idle = dispatch_idle-Charges
  dispatch-Charges connect = dispatch_connect-Charges
  dispatch-Charges active = dispatch_active-Charges
  dispatch-Charges open_sent = dispatch_open_sent-Charges
  dispatch-Charges open_confirm = dispatch_open_confirm-Charges
  dispatch-Charges established = dispatch_established-Charges

-- An event other than a manual start, a manual stop or an automatic stop that takes a session to
-- Idle sets the delay to its start after the first failure or after 90 seconds in Established, else
-- to twice the last delay up to the ceiling; the idle-hold timer then runs for the delay, if the
-- session may start by itself and the delay is positive. Such an event that leaves the session in
-- Idle or outside it leaves the delay.
pub event-Charges :
    (c : FsmConfig) (clock : ℕ) (ev : Ev) (kw : Kw) (s : Fsm)
    → by_operator ev ≡ false
    → Charges c clock s (event c clock ev kw s)
unfolding event count_event bump_idle_hold maybe_forgive_idle_hold
event-Charges c clock ev kw s h =
    let v = dispatch-Charges c clock kw (count_event ev s) s.state ev h in
    record { failure = v.failure; retried = v.retried; otherwise = v.otherwise }
