-- ===== src/Bgp/Fsm/Invariant.antt =====
-- fsm.py: what holds of a session between two calls.
use packets.Base.{
  ℕ, ◌+◌, ◌*◌, ◌≤◌, ◌<◌, max, String, Option, none, some, Bool, true, false, ltb, ◌||◌, ◌≡◌,
  if◌then◌else◌, arith, ◌==◌,
}
use packets.Base.Dict
use packets.Bgp.Fsm.Types.{
  manual_stop, State, idle, connect, active, open_sent, open_confirm, established, Timer,
  connect_retry, hold, keepalive, delay_open, timer_key, Ev, Kw, FsmConfig, Fsm, new,
}
use packets.Bgp.Fsm.Ops.{is_established, rearm}
use packets.Bgp.Fsm.Opening.{negotiated_keepalive, count_event}
use packets.Bgp.Fsm.Machine.{dispatch, event, abandon_connection}
use packets.Bgp.Fsm.Tick.{fire}

abbrev pub is_some {ℓ} : {A : Type ℓ} → Option A → Bool
is_some none = false
is_some (some a) = true

-- Whether a timer runs.
abbrev pub armed : Timer → Fsm → Bool
armed timer s = is_some (Dict.get timer s.deadlines)

-- The timers of a session that waits for the peer.
abbrev Watched : Fsm → Type 0
Watched s = 0 < s.hold_time → (0 < s.keepalive) × (armed hold s ≡ true) × (armed keepalive s ≡ true)

-- The timers that get the session out of a state.
abbrev pub Live : State → Fsm → Type 0
Live idle s = Unit
Live connect s = (armed connect_retry s || armed delay_open s) ≡ true
Live active s = (armed connect_retry s || armed delay_open s) ≡ true
Live open_sent s = armed hold s ≡ true
Live open_confirm s = Watched s
Live established s = Watched s

pub record Inv (c : FsmConfig) (s : Fsm) : Type 0 where
  pub live : Live s.state s
  pub stamped : is_some s.established_at ≡ is_established s.state
  pub backoff : s.idle_hold ≤ max c.idle_hold_start c.idle_hold_max
  pub agreed : s.hold_time ≤ c.hold_time

pub get-rearm :
    (clock : ℕ) (timer j : Timer) (seconds : ℕ) (d : Dict.Dict Timer ℕ)
    → Dict.get j (rearm clock timer seconds d) ≡ (
        if timer == j
        then (if ltb 0 seconds then some (clock + seconds * 1000) else none)
        else Dict.get j d)
unfolding rearm
get-rearm clock timer j seconds d =
    ground (arith, Dict.get-put timer j (clock + seconds * 1000) d, Dict.get-remove timer j d)

pub new-Inv : (c : FsmConfig) (clock : ℕ) → Inv c (new c clock)
unfolding new
new-Inv c clock = ground arith

ruleset timers = (get-rearm, Dict.get-remove, Dict.get-nil)

negotiated_keepalive_pos : (c : FsmConfig) (h : ℕ) → 0 < h → 0 < negotiated_keepalive c h
unfolding negotiated_keepalive
negotiated_keepalive_pos c h p = ground arith

module _ (c : FsmConfig) (clock : ℕ) (kw : Kw) (s : Fsm) (retries : 0 < c.connect_retry) where
  dispatch_idle :
      (ev : Ev)
      → Inv c (record s { state = idle })
      → Inv c (dispatch c clock idle ev kw (record s { state = idle }))
  unfolding dispatch
  dispatch_idle manual_stop v = ground arith
  dispatch_idle _ v = grind (arith, timers, negotiated_keepalive_pos)

  dispatch_connect :
      (ev : Ev)
      → Inv c (record s { state = connect })
      → Inv c (dispatch c clock connect ev kw (record s { state = connect }))
  unfolding dispatch
  dispatch_connect manual_stop v = ground arith
  dispatch_connect _ v = grind (arith, timers, negotiated_keepalive_pos)

  dispatch_active :
      (ev : Ev)
      → Inv c (record s { state = active })
      → Inv c (dispatch c clock active ev kw (record s { state = active }))
  unfolding dispatch
  dispatch_active manual_stop v = ground arith
  dispatch_active _ v = grind (arith, timers, negotiated_keepalive_pos)

  dispatch_open_sent :
      (ev : Ev)
      → Inv c (record s { state = open_sent })
      → Inv c (dispatch c clock open_sent ev kw (record s { state = open_sent }))
  unfolding dispatch
  dispatch_open_sent manual_stop v = ground arith
  dispatch_open_sent _ v = grind (arith, timers, negotiated_keepalive_pos)

  dispatch_open_confirm :
      (ev : Ev)
      → Inv c (record s { state = open_confirm })
      → Inv c (dispatch c clock open_confirm ev kw (record s { state = open_confirm }))
  unfolding dispatch
  dispatch_open_confirm manual_stop v = ground arith
  dispatch_open_confirm _ v = grind (arith, timers, negotiated_keepalive_pos)

  dispatch_established :
      (ev : Ev)
      → Inv c (record s { state = established })
      → Inv c (dispatch c clock established ev kw (record s { state = established }))
  unfolding dispatch
  dispatch_established manual_stop v = ground arith
  dispatch_established _ v = grind (arith, timers, negotiated_keepalive_pos)

  dispatch-Inv :
      (st : State) (ev : Ev)
      → Inv c (record s { state = st })
      → Inv c (dispatch c clock st ev kw (record s { state = st }))
  dispatch-Inv idle = dispatch_idle
  dispatch-Inv connect = dispatch_connect
  dispatch-Inv active = dispatch_active
  dispatch-Inv open_sent = dispatch_open_sent
  dispatch-Inv open_confirm = dispatch_open_confirm
  dispatch-Inv established = dispatch_established

-- The counters are not part of it.
recount :
    (c : FsmConfig) (ev : Ev) (st : State) (s : Fsm)
    → Inv c (record s { state = st })
    → Inv c (count_event ev (record s { state = st }))
unfolding count_event
recount c ev idle s v = ground arith
recount c ev _ s v = ground arith

-- If the connect-retry interval is positive, every event, in every state and with any arguments,
-- keeps the invariant on timers, the time of establishment, the backoff ceiling and the agreed hold
-- time.
pub event-Inv :
    (c : FsmConfig) (clock : ℕ) (ev : Ev) (kw : Kw) (s : Fsm)
    → 0 < c.connect_retry
    → Inv c s
    → Inv c (event c clock ev kw s)
unfolding event
event-Inv c clock ev kw s retries v =
    dispatch-Inv c clock kw (count_event ev s) retries s.state ev (recount c ev s.state s v)

module _ (c : FsmConfig) (clock : ℕ) (s : Fsm) (retries : 0 < c.connect_retry) where
  fire_idle :
      (timer : Timer)
      → Inv c (record s { state = idle })
      → Inv c (fire c clock timer (record s { state = idle }))
  unfolding fire
  fire_idle connect_retry v = grind (arith, timers, negotiated_keepalive_pos)
  fire_idle _ v = grind (arith, timers, negotiated_keepalive_pos)

  fire_connect :
      (timer : Timer)
      → Inv c (record s { state = connect })
      → Inv c (fire c clock timer (record s { state = connect }))
  unfolding fire
  fire_connect connect_retry v = grind (arith, timers, negotiated_keepalive_pos)
  fire_connect _ v = grind (arith, timers, negotiated_keepalive_pos)

  fire_active :
      (timer : Timer)
      → Inv c (record s { state = active })
      → Inv c (fire c clock timer (record s { state = active }))
  unfolding fire
  fire_active connect_retry v = grind (arith, timers, negotiated_keepalive_pos)
  fire_active _ v = grind (arith, timers, negotiated_keepalive_pos)

  fire_open_sent :
      (timer : Timer)
      → Inv c (record s { state = open_sent })
      → Inv c (fire c clock timer (record s { state = open_sent }))
  unfolding fire
  fire_open_sent connect_retry v = grind (arith, timers, negotiated_keepalive_pos)
  fire_open_sent _ v = grind (arith, timers, negotiated_keepalive_pos)

  fire_open_confirm :
      (timer : Timer)
      → Inv c (record s { state = open_confirm })
      → Inv c (fire c clock timer (record s { state = open_confirm }))
  unfolding fire
  fire_open_confirm connect_retry v = grind (arith, timers, negotiated_keepalive_pos)
  fire_open_confirm _ v = grind (arith, timers, negotiated_keepalive_pos)

  fire_established :
      (timer : Timer)
      → Inv c (record s { state = established })
      → Inv c (fire c clock timer (record s { state = established }))
  unfolding fire
  fire_established connect_retry v = grind (arith, timers, negotiated_keepalive_pos)
  fire_established _ v = grind (arith, timers, negotiated_keepalive_pos)

  fire_at :
      (st : State) (timer : Timer)
      → Inv c (record s { state = st })
      → Inv c (fire c clock timer (record s { state = st }))
  fire_at idle = fire_idle
  fire_at connect = fire_connect
  fire_at active = fire_active
  fire_at open_sent = fire_open_sent
  fire_at open_confirm = fire_open_confirm
  fire_at established = fire_established

  -- A timer that fires keeps the invariant, though its deadline is deleted before its event.
  pub fire-Inv : (timer : Timer) → Inv c s → Inv c (fire c clock timer s)
  fire-Inv = fire_at s.state

abandon_at :
    (c : FsmConfig) (clock : ℕ) (reason : String) (st : State) (s : Fsm)
    → 0 < c.connect_retry
    → Inv c (record s { state = st })
    → Inv c (abandon_connection c clock reason (record s { state = st })).0
unfolding abandon_connection
abandon_at c clock reason idle s r v = grind (arith, timers)
abandon_at c clock reason _ s r v = grind (arith, timers)

pub abandon-Inv :
    (c : FsmConfig) (clock : ℕ) (reason : String) (s : Fsm)
    → 0 < c.connect_retry
    → Inv c s
    → Inv c (abandon_connection c clock reason s).0
abandon-Inv c clock reason s = abandon_at c clock reason s.state s
