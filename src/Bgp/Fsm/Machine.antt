-- ===== src/Bgp/Fsm/Machine.antt =====
-- fsm.py: the handlers of the other states, `event` and `abandon_connection`.
use mathlib.Core.Option
use packets.Base.{ℕ, String, [], Bool, true, false, if◌then◌else◌, nat_key}
use packets.Bgp.Errors.{
  notify_header, notify_open, notify_update, notify_hold_timer, notify_fsm, notify_cease,
  hdr_conn_not_sync, cease_admin_shutdown, cease_other_config_change, cease_collision_resolution,
}
use packets.Bgp.Fsm.Types.{
  State, idle, active, open_sent, open_confirm, Action, drop, send_keepalive, listen_only, refuse,
  Timer, hold, delay_open, Kw, FsmConfig, Fsm, Ev, manual_stop, automatic_stop, hold_expired,
  keepalive_expired, tcp_connection_valid, tcp_cr_acked, tcp_confirmed, tcp_fails, bgp_open,
  header_err, open_msg_err, open_collision_dump, notify_version_err, notify_msg, keepalive_msg,
  update_msg, update_msg_err,
}
use packets.Bgp.Fsm.Ops.{
  Op, ◌>>◌, skip, if_then, act, stop, stop_all, set_timing, set_delay_open_armed, set_idle_hold,
  arm, goto, to_idle, notify_and_idle,
}
use packets.Bgp.Fsm.Opening.{
  abandonable, count_event, in_active, in_connect, in_idle, negotiate, not_idle, note_notification,
  restart_hold,
}

module _ (c : FsmConfig) (clock : ℕ) where
  abbrev lost_collision : Op
  lost_collision =
      notify_and_idle c clock notify_cease cease_collision_resolution
        "lost connection collision resolution" [] true

  abbrev notified : Kw → Op
  notified kw = do note_notification kw; to_idle c clock "peer sent NOTIFICATION" true

  -- `_in_open_sent`; `_unexpected` only logs.
  unfoldable pub in_open_sent : Ev → Kw → Op
  unfolding to_idle notify_and_idle negotiate note_notification
  in_open_sent bgp_open kw = negotiate c clock kw
  in_open_sent hold_expired kw =
      notify_and_idle c clock notify_hold_timer 0 "peer sent no OPEN" [] true
  in_open_sent tcp_fails kw = do
    stop_all
    arm clock Timer.connect_retry c.connect_retry
    act (drop "connection closed before OPEN")
    goto clock active "connection closed before OPEN"
  in_open_sent header_err kw =
      notify_and_idle c clock notify_header (Option.get_or kw.subcode hdr_conn_not_sync)
        "header error in OPEN" (Option.get_or kw.payload []) true
  in_open_sent open_msg_err kw =
      notify_and_idle c clock notify_open (Option.get_or kw.subcode 0)
        (Option.get_or kw.reason "bad OPEN") (Option.get_or kw.payload []) true
  in_open_sent open_collision_dump kw = lost_collision
  in_open_sent notify_version_err kw = to_idle c clock "peer rejected our BGP version" true
  in_open_sent notify_msg kw = notified kw
  in_open_sent _ kw = skip

  abbrev send_another_keepalive : Op
  send_another_keepalive s = arm clock Timer.keepalive s.keepalive (act send_keepalive s)

  -- `_in_open_confirm`
  unfoldable pub in_open_confirm : Ev → Kw → Op
  unfolding to_idle notify_and_idle restart_hold note_notification
  in_open_confirm keepalive_msg kw = do
    restart_hold c clock
    act Action.established
    goto clock State.established "session established"
  in_open_confirm keepalive_expired kw = send_another_keepalive
  in_open_confirm hold_expired kw =
      notify_and_idle c clock notify_hold_timer 0 "hold timer expired in OpenConfirm" [] true
  in_open_confirm tcp_fails kw = to_idle c clock "connection closed in OpenConfirm" true
  in_open_confirm notify_msg kw = notified kw
  in_open_confirm notify_version_err kw = to_idle c clock "peer rejected our BGP version" true
  in_open_confirm open_collision_dump kw = lost_collision
  in_open_confirm header_err kw =
      notify_and_idle c clock (Option.get_or kw.code notify_open) (Option.get_or kw.subcode 0)
        "error in OpenConfirm" (Option.get_or kw.payload []) true
  in_open_confirm open_msg_err kw =
      notify_and_idle c clock (Option.get_or kw.code notify_open) (Option.get_or kw.subcode 0)
        "error in OpenConfirm" (Option.get_or kw.payload []) true
  in_open_confirm _ kw = skip

  abbrev open_again : Op
  open_again =
      notify_and_idle c clock notify_fsm 0 "OPEN received on an established session" [] true

  -- `_in_established`
  unfoldable pub in_established : Ev → Kw → Op
  unfolding to_idle notify_and_idle restart_hold note_notification
  in_established keepalive_msg kw = restart_hold c clock
  in_established update_msg kw = restart_hold c clock
  in_established keepalive_expired kw = send_another_keepalive
  in_established hold_expired kw =
      notify_and_idle c clock notify_hold_timer 0 "hold timer expired" [] true
  in_established tcp_fails kw = to_idle c clock "connection closed" true
  in_established notify_msg kw = notified kw
  in_established update_msg_err kw =
      notify_and_idle c clock notify_update (Option.get_or kw.subcode 0)
        (Option.get_or kw.reason "malformed UPDATE") (Option.get_or kw.payload []) true
  in_established header_err kw =
      notify_and_idle c clock notify_header (Option.get_or kw.subcode hdr_conn_not_sync)
        (Option.get_or kw.reason "message header error") (Option.get_or kw.payload []) true
  in_established bgp_open kw = open_again
  in_established open_msg_err kw = open_again
  in_established open_collision_dump kw = lost_collision
  in_established tcp_cr_acked kw = act (refuse "second connection to an established peer")
  in_established tcp_confirmed kw = act (refuse "second connection to an established peer")
  in_established tcp_connection_valid kw = act (refuse "second connection to an established peer")
  in_established _ kw = skip

  -- `_HANDLERS`
  unfoldable pub handler : State → Ev → Kw → Op
  unfolding in_idle in_connect in_active in_open_sent in_open_confirm in_established
  handler idle = in_idle c clock
  handler State.connect = in_connect c clock
  handler active = in_active c clock
  handler open_sent = in_open_sent
  handler open_confirm = in_open_confirm
  handler State.established = in_established

  -- The arm of `event` for `EV_MANUAL_STOP`.
  unfoldable pub manual_stop_now : Kw → State → Op
  unfolding notify_and_idle set_idle_hold
  manual_stop_now kw state = do
    if_then (not_idle state) (
        notify_and_idle c clock notify_cease (Option.get_or kw.subcode cease_admin_shutdown)
          (Option.get_or kw.reason "administratively shut down") [] false)
    set_idle_hold 0
    stop_all
    act listen_only
    goto clock idle "administratively shut down"

  -- The arm of `event` for `EV_AUTOMATIC_STOP`.
  unfoldable pub automatic_stop_now : Kw → State → Op
  unfolding notify_and_idle
  automatic_stop_now kw state = if_then (not_idle state) (
      notify_and_idle c clock notify_cease cease_other_config_change
        (Option.get_or kw.reason "automatic stop") [] false)

  -- The part of `event` after the counter: a stop, or the handler of the state.
  unfoldable pub dispatch : State → Ev → Kw → Op
  unfolding handler manual_stop_now automatic_stop_now
  dispatch state manual_stop kw = manual_stop_now kw state
  dispatch state automatic_stop kw = automatic_stop_now kw state
  dispatch state ev kw = handler state ev kw

  -- `event`; it returns the state of the result.
  unfoldable pub event : Ev → Kw → Op
  unfolding dispatch count_event
  event ev kw s = dispatch s.state ev kw (count_event ev s)

  abbrev step_back : String → Op
  step_back reason = do
    stop hold
    stop Timer.keepalive
    stop delay_open
    set_delay_open_armed false
    set_timing c.hold_time c.keepalive
    arm clock Timer.connect_retry c.connect_retry
    goto clock active reason

  -- `abandon_connection`, with what it returns
  unfoldable pub abandon_connection : String → Fsm → Fsm × Bool
  unfolding stop set_delay_open_armed set_timing arm goto
  abandon_connection reason s =
      if abandonable s.state then (step_back reason s, true) else (s, false)
