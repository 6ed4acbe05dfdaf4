-- ===== src/Bgp/Fsm/Negotiation.antt =====
-- fsm.py: the settings that `FsmConfig` accepts, and the timing that an OPEN negotiates.
use mathlib.Core.Option
use mathlib.Core.Path.{subst}
use packets.Base.{ℕ, ◌+◌, ◌*◌, ◌/◌, ◌≤◌, ◌<◌, min, ◌≡◌, ◌⊎◌, sym, arith, Bool, none, some, Option}
use packets.Base.Dict
use packets.Bgp.Fsm.Types.{
  open_sent, open_confirm, Kw, FsmConfig, Fsm, bgp_open, ok, fsm_config, hold, keepalive, timer_key,
}
use packets.Bgp.Fsm.Opening.{negotiated_keepalive}
use packets.Bgp.Fsm.Machine.{event}
use packets.Bgp.Fsm.Invariant.{get-rearm}

-- The settings of RFC 4271: no hold time or at least 3 seconds, and a shorter keepalive.
pub record IsLegal (c : FsmConfig) : Type 0 where
  pub hold_legal : (c.hold_time ≡ 0) ⊎ (3 ≤ c.hold_time)
  pub keepalive_shorter : 0 < c.hold_time → c.keepalive < c.hold_time

-- Every configuration that the constructor accepts is legal, the default keepalive included.
pub fsm_config-IsLegal :
    (hold_time : ℕ) (given : Option ℕ) (retry delay : ℕ) (passive : Bool) (start top : ℕ)
    (automatic : Bool) {c : FsmConfig}
    → fsm_config hold_time given retry delay passive start top automatic ≡ ok c
    → IsLegal c
unfolding fsm_config
fsm_config-IsLegal hold_time none retry delay passive start top automatic h = ground arith
fsm_config-IsLegal hold_time (some k) retry delay passive start top automatic h = ground arith

scaled-lt : (h k g : ℕ) → 0 < h → k < g → h * k / g < h
scaled-lt h k g p q = grind arith

scaled_self : (k g : ℕ) → 0 < g → g * k / g ≡ k
scaled_self k g p = grind arith

-- The keepalive in force is positive and shorter than the hold time in force, unless that is 1.
negotiated_keepalive_bounds :
    (c : FsmConfig) (h : ℕ)
    → IsLegal c
    → h ≤ c.hold_time
    → 2 ≤ h
    → (0 < negotiated_keepalive c h) × (negotiated_keepalive c h < h)
unfolding negotiated_keepalive
negotiated_keepalive_bounds c h legal le two = ground (arith, scaled-lt h c.keepalive c.hold_time)

negotiated_keepalive_self :
    (c : FsmConfig)
    → 0 < c.keepalive
    → 0 < c.hold_time
    → negotiated_keepalive c c.hold_time ≡ c.keepalive
unfolding negotiated_keepalive
negotiated_keepalive_self c k h = ground (arith, scaled_self c.keepalive c.hold_time)

-- What a session in OpenConfirm has agreed on with a peer that proposed a hold time.
pub record Agreed (c : FsmConfig) (clock proposed : ℕ) (s : Fsm) : Type 0 where
  pub confirming : s.state ≡ open_confirm
  pub smaller_hold : s.hold_time ≡ min c.hold_time proposed
  pub hold_runs : 0 < s.hold_time → Dict.get hold s.deadlines ≡ some (clock + s.hold_time * 1000)
  pub keepalive_runs :
      0 < s.hold_time → Dict.get keepalive s.deadlines ≡ some (clock + s.keepalive * 1000)
  pub keepalive_in_time : 2 ≤ s.hold_time → (0 < s.keepalive) × (s.keepalive < s.hold_time)
  pub unchanged :
      c.hold_time ≤ proposed → 0 < c.keepalive → 0 < c.hold_time → s.keepalive ≡ c.keepalive
  pub off :
      s.hold_time ≡ 0 → (Dict.get hold s.deadlines ≡ none) × (Dict.get keepalive s.deadlines ≡ none)

negotiated_keepalive_pos : (c : FsmConfig) (h : ℕ) → 0 < h → 0 < negotiated_keepalive c h
unfolding negotiated_keepalive
negotiated_keepalive_pos c h p = ground arith

ruleset timers = (get-rearm, Dict.get-remove)

module _ (c : FsmConfig) (clock : ℕ) (kw : Kw) (legal : IsLegal c) where
  open_at :
      (s : Fsm)
      → Agreed c clock
          (Option.get_or kw.hold_time c.hold_time)
          (event c clock bgp_open kw (record s { state = open_sent }))
  unfolding event
  open_at s =
      let h = min c.hold_time (Option.get_or kw.hold_time c.hold_time) in
      record {
        confirming = grind arith;
        smaller_hold = grind arith;
        hold_runs = grind (arith, timers, negotiated_keepalive_pos);
        keepalive_runs = grind (arith, timers, negotiated_keepalive_pos);
        keepalive_in_time = grind (arith, negotiated_keepalive_bounds);
        unchanged = grind (arith, negotiated_keepalive_self);
        off = grind (arith, timers);
      }

  -- In a legal configuration (a hold time of 0 or at least 3, and a keepalive below a hold time
  -- that is not 0), an OPEN in OpenSent takes the session to OpenConfirm and agrees on the smaller
  -- hold time. Above 0, the hold and keepalive timers run for the agreed times; from 2 on, the
  -- keepalive is positive and shorter than the hold time; a configured keepalive that is positive
  -- is kept if the configured hold time is positive and not lowered. At 0 both timers are off.
  pub event-bgp_open :
      (s : Fsm)
      → s.state ≡ open_sent
      → Agreed c clock (Option.get_or kw.hold_time c.hold_time) (event c clock bgp_open kw s)
  event-bgp_open s e =
      subst
        (λ st.
          Agreed c clock (Option.get_or kw.hold_time c.hold_time)
            (event c clock bgp_open kw (record s { state = st })))
        (sym e) (open_at s)
