-- ===== src/Bgp/Fsm/Opening.antt =====
-- fsm.py: the handlers of the states before an OPEN is sent, and the negotiation.
use Prim.Native.String.{◌++◌ as append}
use mathlib.Core.Option
use packets.Base.{
  ℕ, ◌+◌, ◌*◌, ◌/◌, min, max, some, [], Bool, true, false, not, ltb, if◌then◌else◌, decimal,
  nat_key,
}
use packets.Base.Dict
use packets.Base.Dict.{Dict}
use packets.Bgp.Errors.{notify_name, notify_open}
use packets.Bgp.Fsm.Types.{
  State, idle, active, open_sent, open_confirm, Action, drop, send_open, send_keepalive,
  listen_only, Timer, hold, delay_open, Kw, FsmConfig, ev_code, Ev, manual_start, automatic_start,
  connect_retry_expired, delay_open_expired, idle_hold_expired, tcp_connection_valid, tcp_cr_acked,
  tcp_confirmed, tcp_fails, bgp_open, bgp_open_delay_open, header_err, open_msg_err,
  notify_version_err,
}
use packets.Bgp.Fsm.Ops.{
  Op, ◌>>◌, skip, if_then, act, stop, set_timing, set_delay_open_armed, set_idle_hold,
  set_connect_retries, set_last_error, rearm, arm, goto, to_idle, notify_and_idle,
}

-- The keepalive interval that `_negotiate` derives from the hold time in force.
unfoldable pub negotiated_keepalive : FsmConfig → ℕ → ℕ
negotiated_keepalive c hold_time =
    if ltb 0 hold_time
    then (if ltb 0 c.hold_time
        then max 1 (hold_time * c.keepalive / c.hold_time)
        else max 1 (hold_time / 3))
    else 0

-- `self._counters[name] = self._counters.get(name, 0) + 1`, by the event's number
unfoldable pub count_event : Ev → Op
count_event ev s = record s {
  counters =
      Dict.put (ev_code ev) (Option.get_or (Dict.get (ev_code ev) s.counters) 0 + 1) s.counters;
}

-- `_note_notification`
unfoldable pub note_notification : Kw → Op
unfolding set_last_error
note_notification kw =
    set_last_error (
      append "received "
        (notify_name (Option.get_or kw.code 0) (some (Option.get_or kw.subcode 0))))

abbrev pub not_idle : State → Bool
not_idle idle = false
not_idle _ = true

-- The states that have a connection to lose and may lose it.
abbrev pub abandonable : State → Bool
abandonable idle = false
abandonable State.established = false
abandonable _ = true

module _ (c : FsmConfig) (clock : ℕ) where
  -- `_restart_hold`
  unfoldable pub restart_hold : Op
  restart_hold s = record s {
    deadlines = if ltb 0 s.hold_time then rearm clock hold s.hold_time s.deadlines else s.deadlines;
  }

  -- `_start_connecting`
  unfoldable pub start_connecting : Op
  unfolding stop arm act goto
  start_connecting = do
    stop Timer.idle_hold
    arm clock Timer.connect_retry c.connect_retry
    if c.passive
        then (do act listen_only; goto clock active "passive, waiting for the peer to connect")
        else (do act Action.connect; goto clock State.connect "connecting")

  -- `_send_open_and_wait`
  unfoldable pub send_open_and_wait : Op
  unfolding set_delay_open_armed stop act arm goto
  send_open_and_wait = do
    set_delay_open_armed false
    stop delay_open
    act send_open
    arm clock hold 240
    goto clock open_sent "OPEN sent"

  -- `_connection_up`
  unfoldable pub connection_up : Op
  unfolding set_delay_open_armed stop arm send_open_and_wait
  connection_up = do
    stop Timer.connect_retry
    if ltb 0 c.delay_open
        then (do set_delay_open_armed true; arm clock delay_open c.delay_open)
        else send_open_and_wait

  -- `_negotiate`
  unfoldable pub negotiate : Kw → Op
  unfolding set_timing arm stop act goto
  negotiate kw =
      let hold_time = min c.hold_time (Option.get_or kw.hold_time c.hold_time) in
      let keepalive' = negotiated_keepalive c hold_time in
      do
        set_timing hold_time keepalive'
        if ltb 0 hold_time
            then (do arm clock hold hold_time; arm clock Timer.keepalive keepalive')
            else (do stop hold; stop Timer.keepalive)
        act send_keepalive
        goto clock open_confirm (append "OPEN received, hold time " (decimal hold_time))

  -- `_open_during_delay`
  unfoldable pub open_during_delay : Kw → Op
  unfolding stop set_delay_open_armed act negotiate
  open_during_delay kw = do stop delay_open; set_delay_open_armed false; act send_open; negotiate kw

  -- `_in_idle`
  unfoldable pub in_idle : Ev → Kw → Op
  unfolding set_idle_hold stop set_connect_retries act start_connecting
  in_idle manual_start kw = do
    set_idle_hold 0
    stop Timer.idle_hold
    set_connect_retries 0
    start_connecting
  in_idle automatic_start kw = do set_connect_retries 0; start_connecting
  in_idle idle_hold_expired kw = if_then c.allow_automatic_start start_connecting
  in_idle tcp_connection_valid kw = act (drop "connection refused: session is Idle")
  in_idle tcp_confirmed kw = act (drop "connection refused: session is Idle")
  in_idle tcp_cr_acked kw = act (drop "connection refused: session is Idle")
  in_idle _ kw = skip

  abbrev error_before_open : Kw → Op
  error_before_open kw =
      notify_and_idle c clock (Option.get_or kw.code notify_open) (Option.get_or kw.subcode 0)
        "error before OPEN was exchanged" (Option.get_or kw.payload []) true

  abbrev count_retry : Op
  count_retry s = set_connect_retries (s.connect_retries + 1) s

  -- `_in_connect`
  unfoldable pub in_connect : Ev → Kw → Op
  unfolding set_connect_retries to_idle notify_and_idle connection_up open_during_delay
  in_connect connect_retry_expired kw = do
    count_retry
    act (drop "connect retry timer expired")
    arm clock Timer.connect_retry c.connect_retry
    act Action.connect
  in_connect tcp_cr_acked kw = connection_up
  in_connect tcp_confirmed kw = connection_up
  in_connect tcp_connection_valid kw = connection_up
  in_connect tcp_fails kw = do
    stop Timer.connect_retry
    arm clock Timer.connect_retry c.connect_retry
    goto clock active "connection failed"
  in_connect delay_open_expired kw = send_open_and_wait
  in_connect bgp_open kw = open_during_delay kw
  in_connect bgp_open_delay_open kw = open_during_delay kw
  in_connect header_err kw = error_before_open kw
  in_connect open_msg_err kw = error_before_open kw
  in_connect notify_version_err kw = to_idle c clock "peer rejected our BGP version" true
  in_connect _ kw = skip

  -- `_in_active`
  unfoldable pub in_active : Ev → Kw → Op
  unfolding set_connect_retries to_idle notify_and_idle connection_up open_during_delay
  in_active connect_retry_expired kw = do
    arm clock Timer.connect_retry c.connect_retry
    if_then (not c.passive)
        (do count_retry; act Action.connect; goto clock State.connect "retrying the connection")
  in_active tcp_cr_acked kw = connection_up
  in_active tcp_confirmed kw = connection_up
  in_active tcp_connection_valid kw = connection_up
  in_active tcp_fails kw = arm clock Timer.connect_retry c.connect_retry
  in_active delay_open_expired kw = send_open_and_wait
  in_active bgp_open kw = open_during_delay kw
  in_active bgp_open_delay_open kw = open_during_delay kw
  in_active header_err kw = error_before_open kw
  in_active open_msg_err kw = error_before_open kw
  in_active notify_version_err kw = to_idle c clock "peer rejected our BGP version" true
  in_active _ kw = skip
