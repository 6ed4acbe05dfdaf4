-- ===== src/Rib/RouteTable/Converge.antt =====
-- packets/routing/rtengine/rib/table.pyx: a table after any calls and a full selection pass.
use packets.Base.{
  ℕ, Bool, true, false, Option, none, some, List, [], ◌≡◌, refl, sym, ap, ◌∙◌, arith, eqb_iff,
  list_key, bool_key,
}
use mathlib.Core.Path.{subst}
use mathlib.Core.List.{not-mem-nil}
use packets.Rib.Route.{Prefix, Route, Dest}
use packets.Rib.Trie.Bits.{Bits}
use packets.Rib.Trie.Ops.{Result, ok, raises, wrong_family}
use packets.Rib.Trie.Ops
use packets.Rib.RouteTable.Select.{select, same_object}
use packets.Rib.RouteTable.Best.{Chosen, select-Chosen}
use packets.Rib.RouteTable.Ops.{RouteTable, get, reselect, is_empty}
use packets.Rib.RouteTable.State.{look, routes_of, Fits, EntryFits, Waits, Settled}
use packets.Rib.RouteTable.Passes.{reselect_lem, queue-reselect}
use packets.Rib.RouteTable.Calls.{TableOp, replay, run}
use packets.Rib.RouteTable.Replay.{run_lem}

-- The destination of a prefix with these candidates, all selected.
abbrev pub Converged : List Route → Option Dest → Type 0
Converged routes none = routes ≡ []
Converged routes (some d) =
    (d.routes ≡ routes)
    × ((winner : Route) × (best : Route) × Chosen routes (some winner)
        × (d.best ≡ some best)
        × (best.handle ≡ winner.handle))

winner-of :
    (routes : List Route) (o b : Option Route)
    → is_empty routes ≡ false
    → Chosen routes o
    → same_object o b ≡ true
    → (winner : Route) × (best : Route) × Chosen routes (some winner)
      × (b ≡ some best)
      × (best.handle ≡ winner.handle)
winner-of routes none b some_route e same =
    let bad = sym some_route ∙ ap is_empty e in absurd (ground arith)
winner-of routes (some winner) none some_route chosen same = absurd (ground arith)
winner-of routes (some winner) (some best) some_route chosen same =
    (winner, best, chosen, refl, ground arith)

Waits-Settled : (d : Dest) (b : Bool) → Waits [] d b → Settled d
Waits-Settled d true w = absurd (not-mem-nil w)
Waits-Settled d false w = w

Converged-at :
    (afi : ℕ) (routes : List Route) (p : Bits) (o : Option Dest)
    → EntryFits afi [] p o
    → routes_of o ≡ routes
    → Converged routes o
Converged-at afi routes p none h e = sym e
Converged-at afi routes p (some d) (home, family, w) e =
    let (full, same) = Waits-Settled d d.queued w in
    (
      e,
      subst
          (λ l.
            (winner : Route) × (best : Route) × Chosen l (some winner)
            × (d.best ≡ some best)
            × (best.handle ≡ winner.handle))
          e (winner-of d.routes (select d.routes) d.best full (select-Chosen d.routes) same),
    )

get_lem : (t : RouteTable) (p : Prefix) → t.trie.afi ≡ p.afi → get t p ≡ look t p.bits
unfolding get Ops.get
get_lem t p e = let same = (eqb_iff p.afi t.trie.afi).1 (sym e) in rw same

-- After any offers, withdrawals, lookups that create and passes of a table that fits, a full pass
-- empties the queue. Then a prefix of the family is in the table exactly if the offers and
-- withdrawals leave candidates for it, with these candidates, and its best route is the first of
-- the best.
pub reselect-Converged :
    (ops : List TableOp) (t : RouteTable) (p : Prefix)
    → Fits t
    → p.afi ≡ t.afi
    → ((reselect 0 (run ops t)).0.queue ≡ [])
      × Converged
          (replay t.afi ops (λ p. routes_of (look t p)) p.bits)
          (get (reselect 0 (run ops t)).0 p)
reselect-Converged ops t p h family =
    let (f, a, r) = run_lem ops t t.afi (λ p. routes_of (look t p)) (h, refl, λ p. refl) in
    let (f', a', r') = reselect_lem 0 (run ops t) f in
    let s = (reselect 0 (run ops t)).0 in
    let empty = queue-reselect (run ops t) in
    (
      empty,
      subst (Converged (replay t.afi ops (λ p. routes_of (look t p)) p.bits))
          (sym (get_lem s p (f'.family ∙ a' ∙ a ∙ sym family)))
          (Converged-at s.afi _ p.bits (look s p.bits)
            (subst (λ q. EntryFits s.afi q p.bits (look s p.bits)) empty (f'.entries p.bits))
            (r' p.bits ∙ r p.bits)),
    )
