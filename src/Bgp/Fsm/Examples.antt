-- ===== src/Bgp/Fsm/Examples.antt =====
-- fsm.py: one session from its start to its end, and the theorems at it.
use packets.Base.{ℕ, ◌+◌, ◌≡◌, refl, arith, true, false, List, [], ◌∷◌, ◌++◌, none, some}
use packets.Base.Dict
use packets.Bgp.Errors.{notify_name}
use packets.Bgp.Fsm.Types.{
  timer_key, established, Kw, no_kw, FsmConfig, Fsm, hold, manual_start, manual_stop, tcp_cr_acked,
  bgp_open, keepalive_msg, hold_expired, Action, new, fsm_config,
}
use packets.Bgp.Fsm.Ops.{rearm}
use packets.Bgp.Fsm.Opening.{negotiated_keepalive}
use packets.Bgp.Fsm.Machine.{event}
use packets.Bgp.Fsm.Tick.{fire, tick, next_deadline}
use packets.Bgp.Fsm.Invariant.{Inv, new-Inv, event-Inv, fire-Inv, is_some}
use packets.Bgp.Fsm.Due.{tick_total, Ticked}
use packets.Bgp.Fsm.Graph.{Edge, event-Edge}
use packets.Bgp.Fsm.Actions.{Queued, event-queues}
use packets.Bgp.Fsm.Stops.{Stopped, event-manual_stop, Input, run, run-Stopped}
use packets.Bgp.Fsm.Backoff.{Charges, event-Charges}
use packets.Bgp.Fsm.Negotiation.{IsLegal, fsm_config-IsLegal, Agreed, event-bgp_open}
use packets.Bgp.Fsm.Reach.{created, next, feed, not_stuck}
use packets.Bgp.Fsm.DelayOpen.{OpensInTick, tick-lost}

abbrev config : FsmConfig
config = record {
  hold_time = 90;
  keepalive = 30;
  connect_retry = 120;
  delay_open = 0;
  passive = false;
  idle_hold_start = 1;
  idle_hold_max = 3600;
  allow_automatic_start = true;
}

abbrev proposal : Kw
proposal = record no_kw { hold_time = some 30 }

abbrev fresh : Fsm
fresh = new config 0

abbrev started : Fsm
started = event config 1000 manual_start no_kw fresh

abbrev opened : Fsm
opened = event config 2000 tcp_cr_acked no_kw started

abbrev confirming : Fsm
confirming = event config 3000 bgp_open proposal opened

abbrev up : Fsm
up = event config 4000 keepalive_msg no_kw confirming

comes_up :
    (up.state ≡ established)
    × (up.hold_time ≡ 30)
    × (up.keepalive ≡ 10)
    × (Dict.get hold up.deadlines ≡ some 34000)
unfolding event new rearm Dict.get Dict.put Dict.remove negotiated_keepalive notify_name
comes_up = (refl, refl, refl, refl)

event-Inv_example : Inv config started
event-Inv_example = event-Inv config 1000 manual_start no_kw fresh (omega arith) (new-Inv config 0)

fire-Inv_example : Inv config (fire config 90000 hold fresh)
fire-Inv_example = fire-Inv config 90000 fresh (omega arith) hold (new-Inv config 0)

tick_total_example :
    (n : ℕ) × (s' : Fsm) × (tick config (λ i. 99000 + i) 99000 up ≡ some (n, s'))
    × Ticked config 99000 0 up n s'
tick_total_example = tick_total config (λ i. 99000 + i) 99000 (omega arith) (λ i. omega arith) up

event-Edge_example : Edge fresh.state manual_start started.state
event-Edge_example = event-Edge config 1000 manual_start no_kw fresh

event-queues_example :
    let s' = event config 34000 hold_expired no_kw up in
    (new : List Action) × (s'.actions ≡ up.actions ++ new) × Queued up.state s'.state new
event-queues_example = event-queues config 34000 hold_expired no_kw up

abbrev late : List Input
late =
    record { clock = 6000; ev = tcp_cr_acked; kw = no_kw }
    ∷ record { clock = 7000; ev = keepalive_msg; kw = no_kw }
    ∷ []

run-Stopped_example : Stopped (run config late (event config 5000 manual_stop no_kw up))
run-Stopped_example =
    run-Stopped config late (event config 5000 manual_stop no_kw up)
      (event-manual_stop config 5000 no_kw up).0 (refl, (refl, tt))

event-Charges_example : Charges config 34000 up (event config 34000 hold_expired no_kw up)
event-Charges_example = event-Charges config 34000 hold_expired no_kw up refl

config-IsLegal : IsLegal config
unfolding fsm_config
config-IsLegal = fsm_config-IsLegal 90 none 120 0 false 1 3600 true {c = config} refl

event-bgp_open_example : Agreed config 3000 30 (event config 3000 bgp_open proposal opened)
unfolding event new
event-bgp_open_example = event-bgp_open config 3000 proposal config-IsLegal opened refl

not_stuck_example : is_some (next_deadline started.deadlines) ≡ true
unfolding event new
not_stuck_example =
    not_stuck config (omega arith) (next (created 0) (feed 1000 manual_start no_kw)) (λ e. cc)
      (λ e. cc)

abbrev patient : FsmConfig
patient = record config { delay_open = 5 }

abbrev dialling : Fsm
dialling = event patient 1000 manual_start no_kw (new patient 0)

-- The connection comes up at 2 s and fails at 3 s; the tick is at 7 s.
tick-lost_example : OpensInTick patient 2000 3000 7000 (λ i. 7000) no_kw no_kw dialling
unfolding event new rearm Dict.put Dict.remove
tick-lost_example =
    tick-lost patient 2000 3000 7000 (λ i. 7000) no_kw no_kw (omega arith) (omega arith)
      (omega arith) (omega arith) (omega arith) 121000 dialling refl refl
