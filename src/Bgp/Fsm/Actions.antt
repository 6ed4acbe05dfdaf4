-- ===== src/Bgp/Fsm/Actions.antt =====
-- fsm.py: what is queued for the caller, and in which order.
use packets.Base.{
  ℕ, ◌≤◌, ◌≡◌, arith, Bool, true, false, if◌then◌else◌, List, [], ◌∷◌, ◌++◌, append_assoc,
  append-nil, count_if, not, ◌&&◌,
}
use packets.Bgp.Fsm.Types.{
  State, idle, connect, active, open_sent, open_confirm, established, Ev, Kw, FsmConfig, Fsm,
  manual_stop, Action, send_notify, drop, release,
}
use packets.Bgp.Fsm.Ops.{is_established}
use packets.Bgp.Fsm.Opening.{count_event}
use packets.Bgp.Fsm.Machine.{dispatch, event}

-- The session with an empty queue.
abbrev drained : Fsm → Fsm
drained s = record s { actions = [] }

abbrev at : State → Fsm → Fsm
at st s = record s { state = st }

module _ (c : FsmConfig) (clock : ℕ) (kw : Kw) (s : Fsm) where
  abbrev Appends : State → Ev → Type 0
  Appends st ev =
      let s' = dispatch c clock st ev kw (at st s) in
      let fresh = dispatch c clock st ev kw (drained (at st s)) in
      (s'.actions ≡ s.actions ++ fresh.actions) × (s'.state ≡ fresh.state)

  dispatch_idle-Appends : (ev : Ev) → Appends idle ev
  unfolding dispatch
  dispatch_idle-Appends manual_stop = grind (arith, append_assoc)
  dispatch_idle-Appends _ = grind (arith, append-nil, append_assoc)

  dispatch_connect-Appends : (ev : Ev) → Appends connect ev
  unfolding dispatch
  dispatch_connect-Appends manual_stop = grind (arith, append_assoc)
  dispatch_connect-Appends _ = grind (arith, append-nil, append_assoc)

  dispatch_active-Appends : (ev : Ev) → Appends active ev
  unfolding dispatch
  dispatch_active-Appends manual_stop = grind (arith, append_assoc)
  dispatch_active-Appends _ = grind (arith, append-nil, append_assoc)

  dispatch_open_sent-Appends : (ev : Ev) → Appends open_sent ev
  unfolding dispatch
  dispatch_open_sent-Appends manual_stop = grind (arith, append_assoc)
  dispatch_open_sent-Appends _ = grind (arith, append-nil, append_assoc)

  dispatch_open_confirm-Appends : (ev : Ev) → Appends open_confirm ev
  unfolding dispatch
  dispatch_open_confirm-Appends manual_stop = grind (arith, append_assoc)
  dispatch_open_confirm-Appends _ = grind (arith, append-nil, append_assoc)

  dispatch_established-Appends : (ev : Ev) → Appends established ev
  unfolding dispatch
  dispatch_established-Appends manual_stop = grind (arith, append_assoc)
  dispatch_established-Appends _ = grind (arith, append-nil, append_assoc)

  dispatch-Appends : (st : State) (ev : Ev) → Appends st ev
  dispatch-Appends idle = dispatch_idle-Appends
  dispatch-Appends connect = dispatch_connect-Appends
  dispatch-Appends active = dispatch_active-Appends
  dispatch-Appends open_sent = dispatch_open_sent-Appends
  dispatch-Appends open_confirm = dispatch_open_confirm-Appends
  dispatch-Appends established = dispatch_established-Appends

abbrev StartsWithDrop : List Action → Type 0
StartsWithDrop (drop reason ∷ rest) = Unit
StartsWithDrop _ = ⊥

-- Every NOTIFICATION stands directly before the drop of its connection.
abbrev pub Orderly : List Action → Type 0
Orderly [] = Unit
Orderly (send_notify code subcode payload ∷ rest) = StartsWithDrop rest × Orderly rest
Orderly (_ ∷ rest) = Orderly rest

abbrev pub is_up : Action → Bool
is_up Action.established = true
is_up _ = false

abbrev pub is_release : Action → Bool
is_release release = true
is_release _ = false

abbrev entered : State → State → ℕ
entered st st' = if is_established st' && not (is_established st) then 1 else 0

-- What an event queues, when it moves the session from one state to another.
pub record Queued (st st' : State) (new : List Action) : Type 0 where
  pub orderly : Orderly new
  pub announced : count_if is_up new ≡ entered st st'
  pub released : is_established st ≡ true → is_established st' ≡ false → 1 ≤ count_if is_release new

module _ (c : FsmConfig) (clock : ℕ) (kw : Kw) (s : Fsm) where
  abbrev QueuedBy : State → Ev → Type 0
  QueuedBy st ev =
      let s' = dispatch c clock st ev kw (drained (at st s)) in Queued st s'.state s'.actions

  dispatch_idle-Queued : (ev : Ev) → QueuedBy idle ev
  unfolding dispatch
  dispatch_idle-Queued manual_stop = ground arith
  dispatch_idle-Queued _ = ground arith

  dispatch_connect-Queued : (ev : Ev) → QueuedBy connect ev
  unfolding dispatch
  dispatch_connect-Queued manual_stop = ground arith
  dispatch_connect-Queued _ = ground arith

  dispatch_active-Queued : (ev : Ev) → QueuedBy active ev
  unfolding dispatch
  dispatch_active-Queued manual_stop = ground arith
  dispatch_active-Queued _ = ground arith

  dispatch_open_sent-Queued : (ev : Ev) → QueuedBy open_sent ev
  unfolding dispatch
  dispatch_open_sent-Queued manual_stop = ground arith
  dispatch_open_sent-Queued _ = ground arith

  dispatch_open_confirm-Queued : (ev : Ev) → QueuedBy open_confirm ev
  unfolding dispatch
  dispatch_open_confirm-Queued manual_stop = ground arith
  dispatch_open_confirm-Queued _ = ground arith

  dispatch_established-Queued : (ev : Ev) → QueuedBy established ev
  unfolding dispatch
  dispatch_established-Queued manual_stop = ground arith
  dispatch_established-Queued _ = ground arith

  dispatch-Queued : (st : State) (ev : Ev) → QueuedBy st ev
  dispatch-Queued idle = dispatch_idle-Queued
  dispatch-Queued connect = dispatch_connect-Queued
  dispatch-Queued active = dispatch_active-Queued
  dispatch-Queued open_sent = dispatch_open_sent-Queued
  dispatch-Queued open_confirm = dispatch_open_confirm-Queued
  dispatch-Queued established = dispatch_established-Queued

-- Every event adds to the end of the queue. Each NOTIFICATION that it adds stands directly before
-- a drop; the session is announced exactly when it comes up, once; and when it goes down, the
-- release of its routes is queued.
pub event-queues :
    (c : FsmConfig) (clock : ℕ) (ev : Ev) (kw : Kw) (s : Fsm)
    → let s' = event c clock ev kw s in
      (new : List Action) × (s'.actions ≡ s.actions ++ new) × Queued s.state s'.state new
unfolding event count_event
event-queues c clock ev kw s =
    let old = count_event ev s in
    let (appended, same) = dispatch-Appends c clock kw old s.state ev in
    let queued = dispatch-Queued c clock kw old s.state ev in
    (
      (dispatch c clock s.state ev kw (drained old)).actions,
      appended,
      record {
        orderly = queued.orderly;
        announced = rw same queued.announced;
        released = rw same queued.released;
      },
    )
