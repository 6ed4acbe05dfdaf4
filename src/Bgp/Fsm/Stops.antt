-- ===== src/Bgp/Fsm/Stops.antt =====
-- fsm.py: an operator's stop, and that a stopped session stays down.
use mathlib.Core.Option
use mathlib.Core.Path.{subst}
use packets.Base.{ℕ, ◌≡◌, sym, arith, Bool, true, false, List, [], ◌∷◌, ◌++◌, append_assoc, All}
use packets.Bgp.Errors.{notify_cease, cease_admin_shutdown}
use packets.Bgp.Fsm.Types.{
  State, idle, Ev, Kw, FsmConfig, Fsm, manual_start, manual_stop, automatic_start,
  idle_hold_expired, Action, send_notify, drop, release, listen_only,
}
use packets.Bgp.Fsm.Opening.{count_event}
use packets.Bgp.Fsm.Machine.{dispatch, event}

abbrev cease_actions : Kw → List Action
cease_actions kw =
    send_notify notify_cease (Option.get_or kw.subcode cease_admin_shutdown) []
    ∷ drop (Option.get_or kw.reason "administratively shut down")
    ∷ release
    ∷ listen_only
    ∷ []

-- What a manual stop queues in a state.
abbrev pub stop_actions : State → Kw → List Action
stop_actions idle kw = listen_only ∷ []
stop_actions _ kw = cease_actions kw

pub record Stopped (s : Fsm) : Type 0 where
  pub down : s.state ≡ idle
  pub timers_off : s.deadlines ≡ []

stop_at :
    (c : FsmConfig) (clock : ℕ) (kw : Kw) (st : State) (s : Fsm)
    → let s' = dispatch c clock st manual_stop kw (record s { state = st }) in
      Stopped s' × (s'.idle_hold ≡ 0) × (s'.actions ≡ s.actions ++ stop_actions st kw)
unfolding dispatch
stop_at c clock kw idle s = grind (arith, append_assoc)
stop_at c clock kw _ s = grind (arith, append_assoc)

-- A manual stop takes every session to Idle with no timer and no backoff, and queues a Cease, the
-- drop and the release in that order if the session was not Idle.
pub event-manual_stop :
    (c : FsmConfig) (clock : ℕ) (kw : Kw) (s : Fsm)
    → let s' = event c clock manual_stop kw s in
      Stopped s' × (s'.idle_hold ≡ 0) × (s'.actions ≡ s.actions ++ stop_actions s.state kw)
unfolding event count_event
event-manual_stop c clock kw s = stop_at c clock kw s.state (count_event manual_stop s)

-- One call of `event`: when, what, and with which arguments.
pub record Input : Type 0 where
  pub clock : ℕ
  pub ev : Ev
  pub kw : Kw

abbrev pub starts : Ev → Bool
starts manual_start = true
starts automatic_start = true
starts idle_hold_expired = true
starts _ = false

-- A run of events.
unfoldable pub run : FsmConfig → List Input → Fsm → Fsm
run c [] s = s
run c (i ∷ is) s = run c is (event c i.clock i.ev i.kw s)

event_idle :
    (c : FsmConfig) (clock : ℕ) (ev : Ev) (kw : Kw) (s : Fsm)
    → starts ev ≡ false
    → s.deadlines ≡ []
    → Stopped (event c clock ev kw (record s { state = idle }))
unfolding event
event_idle c clock manual_stop kw s h d = ground arith
event_idle c clock _ kw s h d = ground arith

event-Stopped :
    (c : FsmConfig) (clock : ℕ) (ev : Ev) (kw : Kw) (s : Fsm)
    → starts ev ≡ false
    → Stopped s
    → Stopped (event c clock ev kw s)
event-Stopped c clock ev kw s h z =
    subst (λ st. Stopped (event c clock ev kw (record s { state = st }))) (sym z.down)
      (event_idle c clock ev kw s h z.timers_off)

-- After a stop, no events bring the session up again but a start or the end of a backoff; and no
-- timer runs that could fire.
pub run-Stopped :
    (c : FsmConfig) (is : List Input) (s : Fsm)
    → Stopped s
    → All (λ i. starts i.ev ≡ false) is
    → Stopped (run c is s)
unfolding run
run-Stopped c [] s z h = z
run-Stopped c (i ∷ is) s z h =
    run-Stopped c is (event c i.clock i.ev i.kw s) (event-Stopped c i.clock i.ev i.kw s h.0 z) h.1
