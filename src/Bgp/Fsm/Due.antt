-- ===== src/Bgp/Fsm/Due.antt =====
-- fsm.py: `tick` ends, fires what is due, and leaves nothing due.
use packets.Base.{
  ℕ, zero, suc, ◌+◌, ◌*◌, ◌≤◌, ◌<◌, Option, none, some, [], ◌∷◌, leb, ◌≡◌, ◌⊎◌, inl, inr, refl,
  arith, count_if, count_if-le-length, length, Option-cases, Bool-cases, ◌&&◌,
}
use packets.Base.Dict
use packets.Base.Dict.{Dict}
use packets.Bgp.Fsm.Types.{
  State, idle, connect, active, open_sent, open_confirm, established, Timer, timer_key, Ev, Kw,
  no_kw, FsmConfig, Fsm, manual_stop, timer_event, timer_beq_iff,
}
use packets.Bgp.Fsm.Ops.{rearm}
use packets.Bgp.Fsm.Opening.{count_event}
use packets.Bgp.Fsm.Machine.{dispatch, event}
use packets.Bgp.Fsm.Tick.{scan_due, better, beats, fire, tick_loop, tick}
use packets.Bgp.Fsm.Invariant.{Inv, fire-Inv}

-- How many timers are due.
unfoldable pub due : ℕ → Dict Timer ℕ → ℕ
due now = count_if (λ e. leb e.1 now)

due-nil : (now : ℕ) → due now [] ≡ 0
unfolding due
due-nil now = refl

due-remove-le : (now : ℕ) (t : Timer) (d : Dict Timer ℕ) → due now (Dict.remove t d) ≤ due now d
unfolding due Dict.remove
due-remove-le now t [] = omega arith
due-remove-le now t (e ∷ d) = ground (arith, due-remove-le now t d)

due-put-le :
    (now v : ℕ) (t : Timer) (d : Dict Timer ℕ) → now < v → due now (Dict.put t v d) ≤ due now d
unfolding due Dict.put
due-put-le now v t [] h = ground arith
due-put-le now v t (e ∷ d) h = ground (arith, due-put-le now v t d h)

due-rearm-le :
    (now clock seconds : ℕ) (t : Timer) (d : Dict Timer ℕ)
    → now ≤ clock
    → due now (rearm clock t seconds d) ≤ due now d
unfolding rearm
due-rearm-le now clock seconds t d h =
    ground (arith, due-put-le now (clock + seconds * 1000) t d, due-remove-le now t d)

ruleset due_rules = (due-nil, due-remove-le, due-rearm-le)

module _ (c : FsmConfig) (now clock : ℕ) (kw : Kw) (s : Fsm) (past : now ≤ clock) where
  due-dispatch_idle :
      (ev : Ev) → due now (dispatch c clock idle ev kw s).deadlines ≤ due now s.deadlines
  unfolding dispatch
  due-dispatch_idle manual_stop = grind (arith, due_rules)
  due-dispatch_idle _ = grind (arith, due_rules)

  due-dispatch_connect :
      (ev : Ev) → due now (dispatch c clock connect ev kw s).deadlines ≤ due now s.deadlines
  unfolding dispatch
  due-dispatch_connect manual_stop = grind (arith, due_rules)
  due-dispatch_connect _ = grind (arith, due_rules)

  due-dispatch_active :
      (ev : Ev) → due now (dispatch c clock active ev kw s).deadlines ≤ due now s.deadlines
  unfolding dispatch
  due-dispatch_active manual_stop = grind (arith, due_rules)
  due-dispatch_active _ = grind (arith, due_rules)

  due-dispatch_open_sent :
      (ev : Ev) → due now (dispatch c clock open_sent ev kw s).deadlines ≤ due now s.deadlines
  unfolding dispatch
  due-dispatch_open_sent manual_stop = grind (arith, due_rules)
  due-dispatch_open_sent _ = grind (arith, due_rules)

  due-dispatch_open_confirm :
      (ev : Ev) → due now (dispatch c clock open_confirm ev kw s).deadlines ≤ due now s.deadlines
  unfolding dispatch
  due-dispatch_open_confirm manual_stop = grind (arith, due_rules)
  due-dispatch_open_confirm _ = grind (arith, due_rules)

  due-dispatch_established :
      (ev : Ev) → due now (dispatch c clock established ev kw s).deadlines ≤ due now s.deadlines
  unfolding dispatch
  due-dispatch_established manual_stop = grind (arith, due_rules)
  due-dispatch_established _ = grind (arith, due_rules)

  due-dispatch :
      (st : State) (ev : Ev) → due now (dispatch c clock st ev kw s).deadlines ≤ due now s.deadlines
  due-dispatch idle = due-dispatch_idle
  due-dispatch connect = due-dispatch_connect
  due-dispatch active = due-dispatch_active
  due-dispatch open_sent = due-dispatch_open_sent
  due-dispatch open_confirm = due-dispatch_open_confirm
  due-dispatch established = due-dispatch_established

-- No event makes a timer due that was not: what it starts ends later than its own clock reading.
due-event :
    (c : FsmConfig) (now clock : ℕ) (ev : Ev) (kw : Kw) (s : Fsm)
    → now ≤ clock
    → due now (event c clock ev kw s).deadlines ≤ due now s.deadlines
unfolding event
due-event c now clock ev kw s past = due-dispatch c now clock kw (count_event ev s) past s.state ev

-- An entry of the deadlines.
abbrev pub Runs : Timer → ℕ → Dict Timer ℕ → Type 0
Runs t at [] = ⊥
Runs t at (e ∷ d) = ((e.0 ≡ t) × (e.1 ≡ at)) ⊎ Runs t at d

due-remove-lt :
    (now : ℕ) (t : Timer) (at : ℕ) (d : Dict Timer ℕ)
    → Runs t at d
    → at ≤ now
    → due now (Dict.remove t d) < due now d
unfolding due Dict.remove
due-remove-lt now t at [] r h = absurd r
due-remove-lt now t at (e ∷ d) (inl r) h =
    ground (arith, due-remove-le now t d, timer_beq_iff e.0 t)
due-remove-lt now t at (e ∷ d) (inr r) h =
    ground (arith, due-remove-lt now t at d r h, timer_beq_iff e.0 t)

-- Where the scan's choice comes from.
abbrev Chosen : ℕ → Option (Timer × ℕ) → Dict Timer ℕ → Timer → ℕ → Type 0
Chosen now best d t at = (best ≡ some (t, at)) ⊎ (Runs t at d × (at ≤ now))

Chosen-better :
    (now : ℕ) (best : Option (Timer × ℕ)) (e : Timer × ℕ) (d : Dict Timer ℕ) {t : Timer} {at : ℕ}
    → Chosen now (better now best e) d t at
    → Chosen now best (e ∷ d) t at
Chosen-better now best e d (inl h) = elim (Bool-cases (leb e.1 now && beats e.1 best)) [
  | inl new ↦ ground arith
  | inr old ↦ ground arith
]
Chosen-better now best e d (inr h) = inr (inr h.0, h.1)

scan_due-Chosen :
    (now : ℕ) (best : Option (Timer × ℕ)) (d : Dict Timer ℕ) {t : Timer} {at : ℕ}
    → scan_due now best d ≡ some (t, at)
    → Chosen now best d t at
unfolding scan_due
scan_due-Chosen now best [] h = inl h
scan_due-Chosen now best (e ∷ d) h =
    Chosen-better now best e d (scan_due-Chosen now (better now best e) d h)

-- The scan that finds nothing has met nothing that is due.
scan_due-eq-none :
    (now : ℕ) (best : Option (Timer × ℕ)) (d : Dict Timer ℕ)
    → scan_due now best d ≡ none
    → (best ≡ none) × (due now d ≡ 0)
unfolding scan_due due
scan_due-eq-none now best [] h = (h, refl)
scan_due-eq-none now best (e ∷ d) h = ground (arith, scan_due-eq-none now (better now best e) d h)

fire-due-lt :
    (c : FsmConfig) (now clock : ℕ) (s : Fsm) (t : Timer) (at : ℕ)
    → now ≤ clock
    → scan_due now none s.deadlines ≡ some (t, at)
    → due now (fire c clock t s).deadlines < due now s.deadlines
unfolding fire
fire-due-lt c now clock s t at past found = elim (scan_due-Chosen now none s.deadlines found) [
  | inl h ↦ cc
  | inr r ↦ omega (
    arith,
    due-event c now clock (timer_event t) no_kw (record s { deadlines = Dict.remove t s.deadlines })
        past,
    due-remove-lt now t at s.deadlines r.0 r.1,
  )
]

-- What `tick` promises of its result.
pub record Ticked (c : FsmConfig) (now fired : ℕ) (s : Fsm) (n : ℕ) (s' : Fsm) : Type 0 where
  pub quiet : due now s'.deadlines ≡ 0
  pub bounded : n ≤ fired + due now s.deadlines
  pub kept : Inv c s → Inv c s'

module _ (c : FsmConfig) (clock : ℕ → ℕ) (now : ℕ) (retries : 0 < c.connect_retry)
    (past : (i : ℕ) → now ≤ clock i) where
  tick_loop_total :
      (fuel fired : ℕ) (s : Fsm)
      → due now s.deadlines < fuel
      → (n : ℕ) × (s' : Fsm) × (tick_loop c clock now fuel fired s ≡ some (n, s'))
        × Ticked c now fired s n s'
  unfolding tick_loop
  tick_loop_total zero fired s h = elim h [ ]
  tick_loop_total (suc fuel) fired s h = elim (Option-cases (scan_due now none s.deadlines)) [
    | inl e ↦ (
      fired,
      s,
      rw (e, tick_loop),
      record {
        quiet = (scan_due-eq-none now none s.deadlines e).1;
        bounded = omega arith;
        kept = λ v. v;
      },
    )
    | inr (found, e) ↦
        let s₁ : Fsm = fire c (clock fired) found.0 s in
        let less : due now s₁.deadlines < due now s.deadlines =
          fire-due-lt c now (clock fired) s found.0 found.1 (past fired) e in
        let (n, s', q, r) = tick_loop_total fuel (fired + 1) s₁ (omega arith) in
        (
          n,
          s',
          rw (e, tick_loop) q,
          record {
            quiet = r.quiet;
            bounded = omega (arith, r.bounded);
            kept = λ v. r.kept (fire-Inv c (clock fired) s retries found.0 v);
          },
        )
  ]

  -- If the connect-retry interval is positive and the clock does not run backwards, tick returns;
  -- then no timer is due, no more timers fired than were due, and the invariant is kept.
  pub tick_total :
      (s : Fsm) → (n : ℕ) × (s' : Fsm) × (tick c clock now s ≡ some (n, s')) × Ticked c now 0 s n s'
  unfolding tick due
  tick_total s =
      tick_loop_total (suc (length s.deadlines)) 0 s
        (omega (arith, count_if-le-length (λ (e : Timer × ℕ). leb e.1 now) s.deadlines))
