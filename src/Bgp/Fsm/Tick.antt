-- ===== src/Bgp/Fsm/Tick.antt =====
-- fsm.py: the timers seen from outside: `next_deadline`, `tick`.
use packets.Base.{
  ℕ, zero, suc, ◌+◌, Option, none, some, [], ◌∷◌, Bool, true, ltb, leb, length, ◌&&◌, if◌then◌else◌,
}
use packets.Base.Dict
use packets.Base.Dict.{Dict}
use packets.Bgp.Fsm.Types.{Timer, timer_key, timer_event, no_kw, FsmConfig, Fsm}
use packets.Bgp.Fsm.Machine.{event}

-- Whether a deadline beats the best one so far: `due_at is None or deadline < due_at`.
abbrev pub beats : ℕ → Option (Timer × ℕ) → Bool
beats deadline none = true
beats deadline (some (_, due_at)) = ltb deadline due_at

-- One turn of the `for` loop of `tick`.
abbrev pub better : ℕ → Option (Timer × ℕ) → Timer × ℕ → Option (Timer × ℕ)
better now best e = if leb e.1 now && beats e.1 best then some e else best

-- The `for` loop of `tick`: the first of the earliest deadlines that are due.
unfoldable pub scan_due : ℕ → Option (Timer × ℕ) → Dict Timer ℕ → Option (Timer × ℕ)
scan_due now best [] = best
scan_due now best (e ∷ rest) = scan_due now (better now best e) rest

abbrev smaller : ℕ → Option ℕ → Option ℕ
smaller deadline none = some deadline
smaller deadline (some least) = if ltb deadline least then some deadline else some least

-- `next_deadline`
unfoldable pub next_deadline : Dict Timer ℕ → Option ℕ
next_deadline [] = none
next_deadline ((_, deadline) ∷ rest) = smaller deadline (next_deadline rest)

-- `del self._deadlines[due]`, then `self.event(TIMER_EVENTS[due])`
unfoldable pub fire : FsmConfig → ℕ → Timer → Fsm → Fsm
unfolding event
fire c clock timer s =
    event c clock (timer_event timer) no_kw (record s { deadlines = Dict.remove timer s.deadlines })

module _ (c : FsmConfig) (clock : ℕ → ℕ) (now : ℕ) where
  -- The `while` loop of `tick`, with fuel; `clock n` is the clock while the timer number `n` fires.
  unfoldable pub tick_loop : ℕ → ℕ → Fsm → Option (ℕ × Fsm)
  tick_loop zero fired s = none
  tick_loop (suc fuel) fired s = elim (scan_due now none s.deadlines) [
    | none ↦ some (fired, s)
    | some (timer, _) ↦ tick_loop fuel (fired + 1) (fire c (clock fired) timer s)
  ]

  -- `tick`; one round for each timer that runs, and one to see that none is left.
  unfoldable pub tick : Fsm → Option (ℕ × Fsm)
  unfolding tick_loop
  tick s = tick_loop (suc (length s.deadlines)) 0 s
