-- ===== src/Bgp/Fsm/DelayOpen.antt =====
-- fsm.py: what becomes of the DelayOpen timer when the connection fails.
use packets.Base.{
  ℕ, ◌+◌, ◌*◌, ◌≤◌, ◌<◌, ◌≡◌, sym, refl, arith, true, some, [], ◌∷◌, ◌++◌, ltb, suc, none, length,
  ap, ◌∙◌,
}
use mathlib.Core.Path.{subst}
use packets.Base.Dict
use packets.Bgp.Fsm.Types.{
  connect, active, open_sent, Timer, Kw, FsmConfig, Fsm, tcp_cr_acked, tcp_fails, connect_retry,
  delay_open, hold, send_open, timer_key,
}
use packets.Bgp.Fsm.Ops.{rearm}
use packets.Bgp.Fsm.Machine.{event}
use packets.Bgp.Fsm.Tick.{fire, tick, tick_loop, scan_due}

module _ (c : FsmConfig) (up failed : ℕ) (kw kw' : Kw) where
  -- A connection comes up at one time and fails at another.
  abbrev pub lost : Fsm → Fsm
  lost s = event c failed tcp_fails kw' (event c up tcp_cr_acked kw s)

  -- Only the connect-retry timer runs while the session dials.
  abbrev dials : ℕ → Fsm → Fsm
  dials at s = record s { state = connect; deadlines = (connect_retry, at) ∷ [] }

  module _ (at : ℕ) (s : Fsm) (delayed : 0 < c.delay_open) (retries : 0 < c.connect_retry) where
    state-lost : (lost (dials at s)).state ≡ active
    unfolding event
    state-lost = grind arith

    actions-lost : (lost (dials at s)).actions ≡ s.actions
    unfolding event
    actions-lost = grind arith

    deadlines-lost :
        (lost (dials at s)).deadlines
        ≡ (delay_open, up + c.delay_open * 1000)
          ∷ (connect_retry, failed + c.connect_retry * 1000)
          ∷ []
    unfolding event Dict.put Dict.remove rearm
    deadlines-lost =
        let delays : ltb 0 c.delay_open ≡ true = ground arith in
        let dials_on : ltb 0 c.connect_retry ≡ true = ground arith in simp (delays, dials_on)

-- The DelayOpen timer that runs out in Active.
module _ (c : FsmConfig) (clock : ℕ) (s : Fsm) (on : s.state ≡ active) where
  state-fire : (fire c clock delay_open s).state ≡ open_sent
  unfolding fire
  state-fire = rw on refl

  actions-fire : (fire c clock delay_open s).actions ≡ s.actions ++ send_open ∷ []
  unfolding fire
  actions-fire = rw on refl

  deadlines-fire :
      (due next : ℕ)
      → s.deadlines ≡ (delay_open, due) ∷ (connect_retry, next) ∷ []
      → (fire c clock delay_open s).deadlines
        ≡ (connect_retry, next) ∷ (hold, clock + 240 * 1000) ∷ []
  unfolding fire Dict.put Dict.remove rearm
  deadlines-fire due next e = rw (on, e) refl

module _ (c : FsmConfig) (clock : ℕ → ℕ) (now fuel fired : ℕ) (s : Fsm) where
  tick_loop-quiet :
      scan_due now none s.deadlines ≡ none
      → tick_loop c clock now (suc fuel) fired s ≡ some (fired, s)
  unfolding tick_loop
  tick_loop-quiet e = rw (e, tick_loop) refl

  tick_loop-found :
      (t : Timer) (due : ℕ)
      → scan_due now none s.deadlines ≡ some (t, due)
      → tick_loop c clock now (suc fuel) fired s
        ≡ tick_loop c clock now fuel (fired + 1) (fire c (clock fired) t s)
  unfolding tick_loop
  tick_loop-found t due e = rw (e, tick_loop) refl

-- The timers of a session whose connection was lost: DelayOpen is due, connect-retry is not.
module _ (now due next : ℕ) (past : due ≤ now) (later : now < next) where
  scan_due-lost :
      scan_due now none ((delay_open, due) ∷ (connect_retry, next) ∷ []) ≡ some (delay_open, due)
  unfolding scan_due
  scan_due-lost = ground arith

  scan_due-fired :
      (at : ℕ)
      → now ≤ at
      → scan_due now none ((connect_retry, next) ∷ (hold, at + 240 * 1000) ∷ []) ≡ none
  unfolding scan_due
  scan_due-fired at le = ground arith

  module _ (c : FsmConfig) (clock : ℕ → ℕ) (s : Fsm) (on : s.state ≡ active) (ahead : now ≤ clock 0)
      (timers : s.deadlines ≡ (delay_open, due) ∷ (connect_retry, next) ∷ []) where
    tick_loop-fired :
        tick_loop c clock now 2 1 (fire c (clock 0) delay_open s)
        ≡ some (1, fire c (clock 0) delay_open s)
    tick_loop-fired = tick_loop-quiet c clock now 1 1 (fire c (clock 0) delay_open s) (
        ap (scan_due now none) (deadlines-fire c (clock 0) s on due next timers)
        ∙ scan_due-fired (clock 0) ahead)

    tick-once : tick c clock now s ≡ some (1, fire c (clock 0) delay_open s)
    unfolding tick
    tick-once =
        ap (λ d. tick_loop c clock now (suc (length d)) 0 s) timers
        ∙ tick_loop-found c clock now 2 0 s delay_open due
            (ap (scan_due now none) timers ∙ scan_due-lost)
        ∙ tick_loop-fired

module _ (c : FsmConfig) (up failed now : ℕ) (clock : ℕ → ℕ) (kw kw' : Kw) where
  -- What a tick does to a session whose connection was lost.
  abbrev pub OpensInTick : Fsm → Type 0
  OpensInTick s =
      let s' = lost c up failed kw kw' s in
      (s'.state ≡ active)
      × (s'' : Fsm) × (tick c clock now s' ≡ some (1, s''))
      × (s''.state ≡ open_sent)
      × (s''.actions ≡ s.actions ++ send_open ∷ [])

  module _ (delayed : 0 < c.delay_open) (retries : 0 < c.connect_retry)
      (due : up + c.delay_open * 1000 ≤ now) (later : now < failed + c.connect_retry * 1000)
      (ahead : now ≤ clock 0) where
    dials-OpensInTick : (at : ℕ) (s : Fsm) → OpensInTick (dials c up failed kw kw' at s)
    dials-OpensInTick at s =
        let s' = lost c up failed kw kw' (dials c up failed kw kw' at s) in
        let on = state-lost c up failed kw kw' at s delayed retries in
        (
          on,
          fire c (clock 0) delay_open s',
          tick-once now (up + c.delay_open * 1000) (failed + c.connect_retry * 1000) due later c
              clock s' on ahead (deadlines-lost c up failed kw kw' at s delayed retries),
          state-fire c (clock 0) s' on,
          actions-fire c (clock 0) s' on
              ∙ ap (λ a. a ++ send_open ∷ [])
                  (actions-lost c up failed kw kw' at s delayed retries),
        )

    -- A connection that comes up in Connect, where only the connect-retry timer runs, and fails
    -- leaves the session in Active, but the DelayOpen timer outlives it: a tick at or after its
    -- deadline, `delay_open` after the connection came up, and before the next retry fires just that
    -- timer, queues an OPEN and takes the session to OpenSent, though no connection has come up
    -- since. The delay and the retry interval are positive and the clock does not run backwards.
    pub tick-lost :
        (at : ℕ) (s : Fsm)
        → s.state ≡ connect
        → s.deadlines ≡ (connect_retry, at) ∷ []
        → OpensInTick s
    tick-lost at s e t =
        subst (λ st. OpensInTick (record s { state = st })) (sym e)
          (subst (λ d. OpensInTick (record s { state = connect; deadlines = d })) (sym t)
            (dials-OpensInTick at s))
