-- ===== src/Bgp/Fsm/Ops.antt =====
-- fsm.py: the helper methods of `Fsm` from which the handlers are built. A method is a function on
-- the record; `clock` is what the injected clock reads while one event is handled.
use packets.Base.{
  ℕ, ◌+◌, ◌-◌, ◌*◌, min, String, Option, none, some, List, [], ◌∷◌, ◌++◌, Bool, true, false, ltb,
  leb, ◌&&◌, if◌then◌else◌,
}
use packets.Base.Dict
use packets.Base.Dict.{Dict}
use packets.Bgp.Errors.{notify_name}
use packets.Bgp.Fsm.Types.{
  State, idle, established, Action, drop, release, send_notify, Timer, FsmConfig, Fsm, timer_key,
}

abbrev pub Op : Type 0
Op = Fsm → Fsm

-- One statement after another.
infixl 5 ◌>>◌
abbrev pub ◌>>◌ : Op → Op → Op
◌>>◌ f g s = g (f s)

abbrev pub skip : Op
skip s = s

abbrev pub if_then : Bool → Op → Op
if_then test f s = if test then f s else s

-- An interval in seconds, in the clock's unit.
abbrev pub ms : ℕ → ℕ
ms seconds = seconds * 1000

-- `IDLE_HOLD_RESET_AFTER`, in the clock's unit.
abbrev pub idle_hold_reset_after : ℕ
idle_hold_reset_after = 90000

-- `_act`
unfoldable pub act : Action → Op
act a s = record s { actions = s.actions ++ a ∷ [] }

-- `take_actions`
unfoldable pub take_actions : Fsm → List Action × Fsm
take_actions s = (s.actions, record s { actions = [] })

-- `_stop`, of one timer
unfoldable pub stop : Timer → Op
stop timer s = record s { deadlines = Dict.remove timer s.deadlines }

-- `_stop_all`
unfoldable pub stop_all : Op
stop_all s = record s { deadlines = [] }

-- `_negotiate` and its callers set this pair together.
unfoldable pub set_timing : ℕ → ℕ → Op
set_timing hold_time keepalive s = record s { hold_time = hold_time; keepalive = keepalive }

unfoldable pub set_delay_open_armed : Bool → Op
set_delay_open_armed armed s = record s { delay_open_armed = armed }

unfoldable pub set_idle_hold : ℕ → Op
set_idle_hold seconds s = record s { idle_hold = seconds }

unfoldable pub set_connect_retries : ℕ → Op
set_connect_retries n s = record s { connect_retries = n }

unfoldable pub set_last_error : String → Op
set_last_error e s = record s { last_error = some e }

abbrev pub is_established : State → Bool
is_established established = true
is_established _ = false

abbrev pub state_index : State → ℕ
state_index State.idle = 0
state_index State.connect = 1
state_index State.active = 2
state_index State.open_sent = 3
state_index State.open_confirm = 4
state_index State.established = 5

abbrev same_state : State → State → Bool
same_state idle idle = true
same_state State.connect State.connect = true
same_state State.active State.active = true
same_state State.open_sent State.open_sent = true
same_state State.open_confirm State.open_confirm = true
same_state established established = true
same_state _ _ = false

module _ (clock : ℕ) where
  -- The deadlines after `_arm`: a zero interval stops the timer.
  unfoldable pub rearm : Timer → ℕ → Dict Timer ℕ → Dict Timer ℕ
  rearm timer seconds d =
      if ltb 0 seconds then Dict.put timer (clock + ms seconds) d else Dict.remove timer d

  -- `_arm`
  unfoldable pub arm : Timer → ℕ → Op
  arm timer seconds s = record s { deadlines = rearm timer seconds s.deadlines }

  -- `_goto`, without the log line and the callback
  unfoldable pub goto : State → String → Op
  goto state reason s = if same_state state s.state then s else record s {
    state = state;
    transitions = s.transitions + 1;
    state_since = clock;
    last_reason = some reason;
    established_at =
        if is_established state
        then some clock
        else if is_established s.state
        then none
        else s.established_at;
    established_count =
        if is_established state then s.established_count + 1 else s.established_count;
  }

  abbrev long_enough : Option ℕ → Bool
  long_enough none = false
  long_enough (some at) = leb idle_hold_reset_after (clock - at)

  -- `_maybe_forgive_idle_hold`
  unfoldable pub maybe_forgive_idle_hold : Op
  maybe_forgive_idle_hold s = record s {
    idle_hold = if long_enough s.established_at then 0 else s.idle_hold;
  }

module _ (c : FsmConfig) where
  -- `_bump_idle_hold`
  unfoldable pub bump_idle_hold : Op
  bump_idle_hold s = record s {
    idle_hold =
        if leb s.idle_hold 0 then c.idle_hold_start else min (s.idle_hold * 2) c.idle_hold_max;
  }

module _ (c : FsmConfig) (clock : ℕ) where
  abbrev arm_idle_hold : Op
  arm_idle_hold s = record s {
    deadlines =
        if c.allow_automatic_start && ltb 0 s.idle_hold
        then rearm clock Timer.idle_hold s.idle_hold s.deadlines
        else s.deadlines;
  }

  -- `_to_idle`; `release` is true in every call of the source.
  unfoldable pub to_idle : String → Bool → Op
  unfolding maybe_forgive_idle_hold stop_all set_delay_open_armed set_timing act bump_idle_hold arm
      goto
  to_idle reason grow_backoff = do
    maybe_forgive_idle_hold clock
    stop_all
    set_delay_open_armed false
    set_timing c.hold_time c.keepalive
    act (drop reason)
    act release
    if_then grow_backoff (do bump_idle_hold c; arm_idle_hold)
    goto clock idle reason

  -- `_notify_and_idle`
  unfoldable pub notify_and_idle : ℕ → ℕ → String → List ℕ → Bool → Op
  unfolding set_last_error to_idle
  notify_and_idle code subcode reason payload grow_backoff = do
    set_last_error (notify_name code (some subcode))
    act (send_notify code subcode payload)
    to_idle reason grow_backoff
