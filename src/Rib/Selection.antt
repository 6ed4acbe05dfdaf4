-- ===== src/Rib/Selection.antt =====
-- packets/routing/rtengine/rib/globalrib.py: `pending`, `select_step` and `select`, over the tables
-- of all families.
use packets.Base.{
  ℕ, zero, suc, ◌+◌, ◌-◌, ◌^◌, ◌<◌, ◌||◌, Option, none, some, List, [], ◌∷◌, ◌++◌, length, ◌≡◌,
  refl, ap, ◌∙◌, if◌then◌else◌, eqb, ltb, arith, Bool-cases, inl, inr,
}
use packets.Rib.Route.{Dest}
use packets.Rib.Sink.{FibSink}
use packets.Rib.Publish.{GlobalRib, publish}
use packets.Rib.Trie.Bits.{Bits}
use packets.Rib.Trie.Node.{node_exact}
use packets.Rib.RouteTable.Ops.{RouteTable, select_at, drain, reselect}

-- `_tables`, in the order of the dictionary
abbrev pub Tables : Type 0
Tables = List ((ℕ × ℕ) × RouteTable)

-- `RouteTable.pending`
abbrev pub waiting : RouteTable → ℕ
waiting t = length t.queue

-- `pending`
abbrev pub pending : Tables → ℕ
pending [] = 0
pending ((key, t) ∷ tables) = waiting t + pending tables

module _ {S : Type 0} (sink : FibSink S) where
  -- The loop of `select_step`; publishing no change changes nothing, which is why the code may skip it.
  unfoldable pub select_step : ℕ → Tables → GlobalRib S → Tables × GlobalRib S × ℕ
  select_step chunk [] r = ([], r, 0)
  select_step chunk ((key, t) ∷ tables) r =
      let idle = select_step chunk tables r in
      let (t', changed) = reselect chunk t in
      let (rest, r', examined) = select_step chunk tables (publish sink key.0 key.1 changed r) in
      if eqb (waiting t) 0
      then ((key, t) ∷ idle.0, idle.1, idle.2)
      else ((key, t') ∷ rest, r', waiting t - waiting t' + examined)

  -- The loop of `select`, with the total so far.
  unfoldable pub select_loop : ℕ → ℕ → ℕ → Tables → GlobalRib S → Option (Tables × GlobalRib S × ℕ)
  select_loop zero chunk total tables r = none
  select_loop (suc fuel) chunk total tables r =
      let (tables', r', examined) = select_step chunk tables r in
      let rest = select_loop fuel chunk (total + examined) tables' r' in
      if eqb examined 0 then some (tables', r', total) else rest

  -- `select`, with the number of destinations examined
  unfoldable pub select : ℕ → Tables → GlobalRib S → Option (Tables × GlobalRib S × ℕ)
  select limit tables r =
      select_loop (suc (pending tables)) (if ltb 0 limit then limit else 2 ^ 30) 0 tables r

length-drain :
    (limit done : ℕ) (queue : List Bits) (t : RouteTable) (changed : List Dest)
    → 0 < limit
    → waiting (drain limit done queue t changed).0 ≡ length queue - (limit - done)
unfolding drain
length-drain limit done [] t changed h = omega arith
length-drain limit done (k ∷ queue) t changed h =
    let next = select_at t (node_exact t.trie.root k) in
    elim (Bool-cases (eqb limit 0 || ltb done limit)) [
      | inl on ↦
          rw on (ground (arith, length-drain limit (done + 1) queue next.0 (changed ++ next.1) h))
      | inr off ↦ rw off (ground arith)
    ]

waiting-reselect :
    (limit : ℕ) (t : RouteTable) → 0 < limit → waiting (reselect limit t).0 ≡ waiting t - limit
unfolding reselect
waiting-reselect limit t h = length-drain limit 0 t.queue t [] h ∙ omega arith

abbrev pub AllIdle : Tables → Type 0
AllIdle tables = pending tables ≡ 0

module _ {S : Type 0} (sink : FibSink S) (chunk : ℕ) (positive : 0 < chunk) where
  -- A step examines what it takes from the queues, and something if anything waits.
  step_lem :
      (tables : Tables) (r : GlobalRib S)
      → let s = select_step sink chunk tables r in
        (s.2 + pending s.0 ≡ pending tables) × (s.2 ≡ 0 → pending tables ≡ 0)
  unfolding select_step
  step_lem [] r = (refl, λ e. refl)
  step_lem ((key, t) ∷ tables) r = elim (Bool-cases (eqb (waiting t) 0)) [
    | inl idle ↦
        let (sum, some_left) = step_lem tables r in
        rw idle (omega (arith, sum), λ e. ground (arith, some_left e))
    | inr busy ↦
        let (sum, some_left) = step_lem tables (publish sink key.0 key.1 (reselect chunk t).1 r) in
        let left = waiting-reselect chunk t positive in
        rw busy (ground (arith, sum, left), λ e. ground (arith, left))
  ]

  loop_lem :
      (fuel total : ℕ) (tables : Tables) (r : GlobalRib S)
      → pending tables < fuel
      → (tables' : Tables) × (r' : GlobalRib S) × (select_loop sink fuel chunk total tables r
          ≡ some (tables', r', total + pending tables))
        × AllIdle tables'
  unfolding select_loop
  loop_lem zero total tables r lt = absurd (omega arith)
  loop_lem (suc fuel) total tables r lt =
      let s = select_step sink chunk tables r in
      let (sum, some_left) = step_lem tables r in
      elim (Bool-cases (eqb s.2 0)) [
        | inl last ↦
            let nothing : pending tables ≡ 0 = some_left (ground arith) in
            rw last (
              s.0,
              s.1,
              ap (λ n. some (s.0, s.1, n)) (omega (arith, nothing)),
              omega (arith, sum, nothing),
            )
        | inr more ↦
            let (tables', r', e, idle) =
              loop_lem fuel (total + s.2) s.0 s.1 (ground (arith, sum)) in
            rw more (tables', r', e ∙ ap (λ n. some (tables', r', n)) (omega (arith, sum)), idle)
      ]

chunk-positive : (limit : ℕ) → 0 < (if ltb 0 limit then limit else 2 ^ 30)
chunk-positive limit = ground arith

-- `select` returns, whatever the limit: then no destination of any table waits, and the number that
-- it returns is that of the destinations that waited.
pub select_total :
    {S : Type 0} (sink : FibSink S) (limit : ℕ) (tables : Tables) (r : GlobalRib S)
    → (tables' : Tables) × (r' : GlobalRib S) × (select sink limit tables r
        ≡ some (tables', r', pending tables))
      × (pending tables' ≡ 0)
unfolding select
select_total sink limit tables r =
    let chunk = if ltb 0 limit then limit else 2 ^ 30 in
    let (tables', r', e, idle) =
      loop_lem sink chunk (chunk-positive limit) (suc (pending tables)) 0 tables r (omega arith) in
    (tables', r', e ∙ ap (λ n. some (tables', r', n)) (omega arith), idle)
