-- ===== src/Bgp/Fsm/Types.antt =====
-- fsm.py: the states, events, actions, timers, settings and the record of one session.
use packets.Base.{
  ℕ, String, Option, none, some, List, [], Bool, true, false, ◌≡◌, ◌↔◌, Key, eqb, arith,
  if◌then◌else◌, ltb, leb, ◌&&◌, ◌/◌,
}
use packets.Base.Dict.{Dict}

pub data State : Type 0 where
  idle connect active open_sent open_confirm established : State

-- The `EV_*` codes. `other` stands for a code that is none of them.
pub data Ev : Type 0 where
  manual_start manual_stop automatic_start automatic_stop : Ev
  connect_retry_expired hold_expired keepalive_expired delay_open_expired idle_hold_expired : Ev
  tcp_connection_valid tcp_cr_invalid tcp_cr_acked tcp_confirmed tcp_fails : Ev
  bgp_open bgp_open_delay_open header_err open_msg_err open_collision_dump : Ev
  notify_version_err notify_msg keepalive_msg update_msg update_msg_err : Ev
  other : ℕ → Ev

-- An action with its payload.
pub data Action : Type 0 where
  connect : Action
  drop : String → Action
  send_open : Action
  send_keepalive : Action
  send_notify : ℕ → ℕ → List ℕ → Action
  established : Action
  release : Action
  listen_only : Action
  refuse : String → Action

pub data Timer : Type 0 where
  connect_retry hold keepalive delay_open idle_hold : Timer

-- `TIMER_EVENTS`
abbrev pub timer_event : Timer → Ev
timer_event connect_retry = connect_retry_expired
timer_event hold = hold_expired
timer_event keepalive = keepalive_expired
timer_event delay_open = delay_open_expired
timer_event idle_hold = idle_hold_expired

abbrev timer_index : Timer → ℕ
timer_index connect_retry = 0
timer_index hold = 1
timer_index keepalive = 2
timer_index delay_open = 3
timer_index idle_hold = 4

abbrev timer_beq : Timer → Timer → Bool
timer_beq a b = eqb (timer_index a) (timer_index b)

pub timer_beq_iff : (a b : Timer) → (timer_beq a b ≡ true) ↔ (a ≡ b)
timer_beq_iff connect_retry b = ground arith
timer_beq_iff _ b = ground arith

instance abbrev pub timer_key : Key Timer
timer_key = record { same = timer_beq; same_iff = timer_beq_iff }

-- The counter keys of `EVENT_NAMES`, by their RFC 4271 numbers.
abbrev pub ev_code : Ev → ℕ
ev_code manual_start = 1
ev_code manual_stop = 2
ev_code automatic_start = 3
ev_code automatic_stop = 8
ev_code connect_retry_expired = 9
ev_code hold_expired = 10
ev_code keepalive_expired = 11
ev_code delay_open_expired = 12
ev_code idle_hold_expired = 13
ev_code tcp_connection_valid = 14
ev_code tcp_cr_invalid = 15
ev_code tcp_cr_acked = 16
ev_code tcp_confirmed = 17
ev_code tcp_fails = 18
ev_code bgp_open = 19
ev_code bgp_open_delay_open = 20
ev_code header_err = 21
ev_code open_msg_err = 22
ev_code open_collision_dump = 23
ev_code notify_version_err = 24
ev_code notify_msg = 25
ev_code keepalive_msg = 26
ev_code update_msg = 27
ev_code update_msg_err = 28
ev_code (other n) = n

-- The keyword arguments of an event; `payload` is `data`.
pub record Kw : Type 0 where
  pub hold_time : Option ℕ
  pub code : Option ℕ
  pub subcode : Option ℕ
  pub reason : Option String
  pub payload : Option (List ℕ)

abbrev pub no_kw : Kw
no_kw = record { hold_time = none; code = none; subcode = none; reason = none; payload = none }

-- `FsmConfig`, its times in whole seconds.
pub record FsmConfig : Type 0 where
  pub hold_time : ℕ
  pub keepalive : ℕ
  pub connect_retry : ℕ
  pub delay_open : ℕ
  pub passive : Bool
  pub idle_hold_start : ℕ
  pub idle_hold_max : ℕ
  pub allow_automatic_start : Bool

-- What `FsmConfig.__init__` raises.
pub data ConfigError : Type 0 where
  illegal_hold_time : ℕ → ConfigError
  keepalive_too_long : ℕ → ℕ → ConfigError

pub data Checked : Type 0 where
  ok : FsmConfig → Checked
  raises : ConfigError → Checked

abbrev default_keepalive : ℕ → Option ℕ → ℕ
default_keepalive hold_time none = if ltb 0 hold_time then hold_time / 3 else 0
default_keepalive hold_time (some given) = given

-- `FsmConfig.__init__`; `keepalive` may be left to its default.
unfoldable pub fsm_config : ℕ → Option ℕ → ℕ → ℕ → Bool → ℕ → ℕ → Bool → Checked
fsm_config hold_time given retry delay passive start top automatic =
    if ltb 0 hold_time && ltb hold_time 3
    then raises (illegal_hold_time hold_time)
    else let keepalive' = default_keepalive hold_time given in
      if ltb 0 hold_time && leb hold_time keepalive'
      then raises (keepalive_too_long keepalive' hold_time)
      else ok (record {
        hold_time = hold_time;
        keepalive = keepalive';
        connect_retry = retry;
        delay_open = delay;
        passive = passive;
        idle_hold_start = start;
        idle_hold_max = top;
        allow_automatic_start = automatic;
      })

-- `Fsm`. Instants are milliseconds of the injected clock, intervals whole seconds.
pub record Fsm : Type 0 where
  pub state : State
  pub deadlines : Dict Timer ℕ
  pub actions : List Action
  pub hold_time : ℕ
  pub keepalive : ℕ
  pub idle_hold : ℕ
  pub established_at : Option ℕ
  pub connect_retries : ℕ
  pub transitions : ℕ
  pub established_count : ℕ
  pub last_error : Option String
  pub last_reason : Option String
  pub state_since : ℕ
  pub delay_open_armed : Bool
  pub counters : Dict ℕ ℕ

-- `Fsm.__init__`
unfoldable pub new : FsmConfig → ℕ → Fsm
new c clock = record {
  state = idle;
  deadlines = [];
  actions = [];
  hold_time = c.hold_time;
  keepalive = c.keepalive;
  idle_hold = 0;
  established_at = none;
  connect_retries = 0;
  transitions = 0;
  established_count = 0;
  last_error = none;
  last_reason = none;
  state_since = clock;
  delay_open_armed = false;
  counters = [];
}
