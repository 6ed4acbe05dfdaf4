-- ===== src/Bgp/Fsm/Graph.antt =====
-- fsm.py: the transition diagram, with timers and counters left out.
use packets.Base.{ℕ, ◌≡◌, ◌≢◌, refl, arith}
use packets.Bgp.Fsm.Types.{
  State, idle, connect, active, open_sent, open_confirm, established, Ev, Kw, FsmConfig, Fsm,
  manual_start, manual_stop, automatic_start, automatic_stop, connect_retry_expired, hold_expired,
  delay_open_expired, idle_hold_expired, tcp_connection_valid, tcp_cr_acked, tcp_confirmed,
  tcp_fails, bgp_open, bgp_open_delay_open, header_err, open_msg_err, open_collision_dump,
  notify_version_err, notify_msg, keepalive_msg, update_msg_err,
}
use packets.Bgp.Fsm.Opening.{count_event}
use packets.Bgp.Fsm.Machine.{dispatch, event}

-- Events that start a session.
pub data Starts : Ev → Type 0 where
  by_hand : Starts manual_start
  by_itself : Starts automatic_start
  after_backoff : Starts idle_hold_expired

-- Events after which our OPEN goes out.
pub data Ready : Ev → Type 0 where
  acked : Ready tcp_cr_acked
  confirmed : Ready tcp_confirmed
  valid : Ready tcp_connection_valid
  delayed : Ready delay_open_expired

-- The peer's OPEN, before ours went out.
pub data Opens : Ev → Type 0 where
  plain : Opens bgp_open
  early : Opens bgp_open_delay_open

-- The states that wait for a TCP connection.
pub data Waits : State → Type 0 where
  dialling : Waits connect
  listening : Waits active

-- Events that can end a session.
pub data Ends : Ev → Type 0 where
  stopped : Ends manual_stop
  stopped_automatically : Ends automatic_stop
  bad_header : Ends header_err
  bad_open : Ends open_msg_err
  bad_version : Ends notify_version_err
  bad_update : Ends update_msg_err
  silent : Ends hold_expired
  closed : Ends tcp_fails
  told : Ends notify_msg
  collided : Ends open_collision_dump
  second_open : Ends bgp_open

-- `Edge from ev to`: the event may move a session from one state to the other.
pub data Edge : State → Ev → State → Type 0 where
  stay : {st : State} {ev : Ev} → Edge st ev st
  dial : {ev : Ev} → Starts ev → Edge idle ev connect
  listen : {ev : Ev} → Starts ev → Edge idle ev active
  redial : Edge active connect_retry_expired connect
  fall_back : Edge connect tcp_fails active
  send : {st : State} {ev : Ev} → Waits st → Ready ev → Edge st ev open_sent
  answer : {st : State} {ev : Ev} → Waits st → Opens ev → Edge st ev open_confirm
  lose : Edge open_sent tcp_fails active
  agree : Edge open_sent bgp_open open_confirm
  come_up : Edge open_confirm keepalive_msg established
  come_down : {st : State} {ev : Ev} → Ends ev → Edge st ev idle

ruleset edges = (
  stay, dial, listen, redial, fall_back, send, answer, lose, agree, come_up, come_down, by_hand,
  by_itself, after_backoff, acked, confirmed, valid, delayed, plain, early, dialling, listening,
  stopped, stopped_automatically, bad_header, bad_open, bad_version, bad_update, silent, closed,
  told, collided, second_open,
)

module _ (c : FsmConfig) (clock : ℕ) (kw : Kw) (s : Fsm) where
  dispatch_idle-Edge :
      (ev : Ev) → Edge idle ev (dispatch c clock idle ev kw (record s { state = idle })).state
  unfolding dispatch
  dispatch_idle-Edge manual_stop = grind (arith, edges)
  dispatch_idle-Edge _ = grind (arith, edges)

  dispatch_connect-Edge :
      (ev : Ev)
      → Edge connect ev (dispatch c clock connect ev kw (record s { state = connect })).state
  unfolding dispatch
  dispatch_connect-Edge manual_stop = grind (arith, edges)
  dispatch_connect-Edge _ = grind (arith, edges)

  dispatch_active-Edge :
      (ev : Ev) → Edge active ev (dispatch c clock active ev kw (record s { state = active })).state
  unfolding dispatch
  dispatch_active-Edge manual_stop = grind (arith, edges)
  dispatch_active-Edge _ = grind (arith, edges)

  dispatch_open_sent-Edge :
      (ev : Ev)
      → Edge open_sent ev (dispatch c clock open_sent ev kw (record s { state = open_sent })).state
  unfolding dispatch
  dispatch_open_sent-Edge manual_stop = grind (arith, edges)
  dispatch_open_sent-Edge _ = grind (arith, edges)

  dispatch_open_confirm-Edge :
      (ev : Ev)
      → Edge open_confirm ev
          (dispatch c clock open_confirm ev kw (record s { state = open_confirm })).state
  unfolding dispatch
  dispatch_open_confirm-Edge manual_stop = grind (arith, edges)
  dispatch_open_confirm-Edge _ = grind (arith, edges)

  dispatch_established-Edge :
      (ev : Ev)
      → Edge established ev
          (dispatch c clock established ev kw (record s { state = established })).state
  unfolding dispatch
  dispatch_established-Edge manual_stop = grind (arith, edges)
  dispatch_established-Edge _ = grind (arith, edges)

  dispatch-Edge :
      (st : State) (ev : Ev)
      → Edge st ev (dispatch c clock st ev kw (record s { state = st })).state
  dispatch-Edge idle = dispatch_idle-Edge
  dispatch-Edge connect = dispatch_connect-Edge
  dispatch-Edge active = dispatch_active-Edge
  dispatch-Edge open_sent = dispatch_open_sent-Edge
  dispatch-Edge open_confirm = dispatch_open_confirm-Edge
  dispatch-Edge established = dispatch_established-Edge

-- Every event, in every state, follows an edge of the diagram.
pub event-Edge :
    (c : FsmConfig) (clock : ℕ) (ev : Ev) (kw : Kw) (s : Fsm)
    → Edge s.state ev (event c clock ev kw s).state
unfolding event count_event
event-Edge c clock ev kw s = dispatch-Edge c clock kw (count_event ev s) s.state ev

Edge-established :
    {st st' : State} {ev : Ev}
    → Edge st ev st'
    → st ≢ established
    → st' ≡ established
    → (st ≡ open_confirm) × (ev ≡ keepalive_msg)
Edge-established stay h e = absurd (h e)
Edge-established come_up h e = (refl, refl)
Edge-established _ h e = cc

-- A session comes up in one way only: by a KEEPALIVE in OpenConfirm.
pub established_by_keepalive :
    (c : FsmConfig) (clock : ℕ) (ev : Ev) (kw : Kw) (s : Fsm)
    → s.state ≢ established
    → (event c clock ev kw s).state ≡ established
    → (s.state ≡ open_confirm) × (ev ≡ keepalive_msg)
established_by_keepalive c clock ev kw s = Edge-established (event-Edge c clock ev kw s)
