-- ===== src/Bgp/Fsm/Reach.antt =====
-- fsm.py: the sessions that the caller's calls can reach, and that none of them is stuck.
use packets.Base.{ℕ, ◌≤◌, ◌<◌, ◌≡◌, ◌≢◌, refl, arith, Bool, true, false, String, some, [], ◌∷◌}
use mathlib.Core.Path.{subst}
use packets.Base.Dict
use packets.Base.Dict.{Dict}
use packets.Bgp.Fsm.Types.{
  State, idle, connect, active, open_sent, open_confirm, established, Ev, Kw, FsmConfig, Fsm, Timer,
  connect_retry, hold, delay_open, timer_key, new,
}
use packets.Bgp.Fsm.Ops.{take_actions}
use packets.Bgp.Fsm.Machine.{event, abandon_connection}
use packets.Bgp.Fsm.Tick.{next_deadline, tick}
use packets.Bgp.Fsm.Invariant.{Inv, is_some, event-Inv, abandon-Inv, new-Inv, Live}
use packets.Bgp.Fsm.Due.{tick_total}

-- The calls of a session's owner. The clock does not run backwards during a `tick`.
pub data Step (c : FsmConfig) : Fsm → Fsm → Type 0 where
  feed : {s : Fsm} (clock : ℕ) (ev : Ev) (kw : Kw) → Step c s (event c clock ev kw s)
  ticks :
      {s s' : Fsm} (clock : ℕ → ℕ) (now n : ℕ)
      → ((i : ℕ) → now ≤ clock i)
      → tick c clock now s ≡ some (n, s')
      → Step c s s'
  abandons :
      {s : Fsm} (clock : ℕ) (reason : String) → Step c s (abandon_connection c clock reason s).0
  takes : {s : Fsm} → Step c s (take_actions s).1

pub data Reach (c : FsmConfig) : Fsm → Type 0 where
  created : (clock : ℕ) → Reach c (new c clock)
  next : {s s' : Fsm} → Reach c s → Step c s s' → Reach c s'

tick-Inv :
    (c : FsmConfig) (clock : ℕ → ℕ) (now n : ℕ) (s s' : Fsm)
    → 0 < c.connect_retry
    → ((i : ℕ) → now ≤ clock i)
    → tick c clock now s ≡ some (n, s')
    → Inv c s
    → Inv c s'
tick-Inv c clock now n s s' retries past e v =
    let (m, t, q, r) = tick_total c clock now retries past s in
    let same : t ≡ s' = cc in subst (Inv c) same (r.kept v)

Step-Inv : (c : FsmConfig) {s s' : Fsm} → 0 < c.connect_retry → Step c s s' → Inv c s → Inv c s'
unfolding take_actions
Step-Inv c {s} retries (feed clock ev kw) v = event-Inv c clock ev kw s retries v
Step-Inv c {s} {s'} retries (ticks clock now n past e) v =
    tick-Inv c clock now n s s' retries past e v
Step-Inv c {s} retries (abandons clock reason) v = abandon-Inv c clock reason s retries v
Step-Inv c {s} retries takes v = takes-Inv s.state s v
  where
    takes-Inv :
        (st : State) (t : Fsm)
        → Inv c (record t { state = st })
        → Inv c (record t { state = st; actions = [] })
    takes-Inv idle t w = ground arith
    takes-Inv _ t w = ground arith

-- Every session that can be reached satisfies the invariant.
pub Reach-Inv : (c : FsmConfig) {s : Fsm} → 0 < c.connect_retry → Reach c s → Inv c s
Reach-Inv c retries (created clock) = new-Inv c clock
Reach-Inv c retries (next r st) = Step-Inv c retries st (Reach-Inv c retries r)

armed-next_deadline :
    (t : Timer) (d : Dict Timer ℕ)
    → is_some (Dict.get t d) ≡ true
    → is_some (next_deadline d) ≡ true
unfolding next_deadline Dict.get
armed-next_deadline t [] h = cc
armed-next_deadline t (e ∷ d) h = ground (arith)

-- The states in which a session without a hold time waits for the peer for ever.
abbrev pub watches : State → Bool
watches open_confirm = true
watches established = true
watches _ = false

has_timer :
    (st : State) (s : Fsm)
    → Live st s
    → st ≢ idle
    → (watches st ≡ true → 0 < s.hold_time)
    → is_some (next_deadline s.deadlines) ≡ true
has_timer idle s l h w = absurd (h refl)
has_timer connect s l h w = ground (
  arith,
  armed-next_deadline connect_retry s.deadlines,
  armed-next_deadline delay_open s.deadlines,
)
has_timer active s l h w = ground (
  arith,
  armed-next_deadline connect_retry s.deadlines,
  armed-next_deadline delay_open s.deadlines,
)
has_timer open_sent s l h w = ground (arith, armed-next_deadline hold s.deadlines)
has_timer _ s l h w = armed-next_deadline hold s.deadlines (l (w refl)).1

-- If the connect-retry interval is positive, every reachable session outside Idle has a running
-- timer, unless it is in OpenConfirm or Established with a hold time in force of 0.
pub not_stuck :
    (c : FsmConfig) {s : Fsm}
    → 0 < c.connect_retry
    → Reach c s
    → s.state ≢ idle
    → (watches s.state ≡ true → 0 < s.hold_time)
    → is_some (next_deadline s.deadlines) ≡ true
not_stuck c {s} retries r = has_timer s.state s (Reach-Inv c retries r).live
