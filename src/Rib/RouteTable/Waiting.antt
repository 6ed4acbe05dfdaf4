-- ===== src/Rib/RouteTable/Waiting.antt =====
-- packets/routing/rtengine/rib/table.pyx: between two selection passes the best routes stay.
use packets.Base.{
  ℕ, ◌+◌, ◌-◌, Bool, true, false, not, Option, none, some, List, [], ◌∷◌, ◌++◌, ◌≡◌, refl, sym, ap,
  ◌∙◌, if◌then◌else◌, eqb, All,
}
use mathlib.Core.Path.{subst}
use packets.Rib.Route.{Prefix, Route, Dest}
use packets.Rib.Trie.Bits.{Bits}
use packets.Rib.Trie.Ops.{Result, ok, raises, wrong_family}
use packets.Rib.Trie.Ops
use packets.Rib.Trie.Valid.{exact-store}
use packets.Rib.RouteTable.Select.{Place, kept, replaced, absent, place, removed}
use packets.Rib.RouteTable.Ops.{
  RouteTable, write, get, dest, or_fresh, fresh, enqueue, offer, offer_to, settle, retract,
  retract_from, take_away,
}
use packets.Rib.RouteTable.State.{look, Fits, EntryFits, at_or_else}
use packets.Rib.RouteTable.Calls.{
  TableOp, offer_route, retract_route, intern, select_some, after, apply, run, look-fresh,
}
use packets.Rib.RouteTable.Replay.{run-Fits}
use packets.Rib.RouteTable.Reports.{best_of}

-- The best routes are those of another table.
abbrev pub SameBest : RouteTable → RouteTable → Type 0
SameBest t s = (p : Bits) → best_of (look s p) ≡ best_of (look t p)

write-SameBest :
    (t : RouteTable) (d : Dest) → best_of (look t d.prefix.bits) ≡ d.best → SameBest t (write t d)
unfolding write
write-SameBest t d e p =
    ap best_of (exact-store t.trie d.prefix.bits p d)
    ∙ at_or_else (λ p o. best_of o ≡ best_of (look t p)) p d.prefix.bits (some d) (look t p) (sym e)
        (λ ne. refl)

marked-SameBest :
    (t : RouteTable) (d : Dest) (b : Bool)
    → best_of (look t d.prefix.bits) ≡ d.best
    → SameBest t (
        if b then write t d else record (write t (record d { queued = true })) {
          queue = t.queue ++ d.prefix.bits ∷ [];
        })
marked-SameBest t d true e = write-SameBest t d e
marked-SameBest t d false e = write-SameBest t (record d { queued = true }) e

enqueue-SameBest :
    (t : RouteTable) (d : Dest) → best_of (look t d.prefix.bits) ≡ d.best → SameBest t (enqueue t d)
unfolding enqueue
enqueue-SameBest t d e = marked-SameBest t d d.queued e

-- A destination that is found, with other routes.
routes-SameBest :
    (t : RouteTable) (count : ℕ) (d : Dest) (routes : List Route)
    → look t d.prefix.bits ≡ some d
    → SameBest t (enqueue (record t { route_count = count }) (record d { routes = routes }))
routes-SameBest t count d routes e =
    enqueue-SameBest (record t { route_count = count }) (record d { routes = routes })
      (ap best_of e)

settle-SameBest :
    (t : RouteTable) (d : Dest) (r : Route) (o : Place)
    → look t d.prefix.bits ≡ some d
    → SameBest t (settle t d r o).0
settle-SameBest t d r kept e = λ p. refl
settle-SameBest t d r (replaced routes) e = routes-SameBest t t.route_count d routes e
settle-SameBest t d r absent e = routes-SameBest t (t.route_count + 1) d (d.routes ++ r ∷ []) e

take_away-SameBest :
    (t : RouteTable) (d : Dest) (o : Option (List Route))
    → look t d.prefix.bits ≡ some d
    → SameBest t (take_away t d o).0
take_away-SameBest t d none e = λ p. refl
take_away-SameBest t d (some routes) e = routes-SameBest t (t.route_count - 1) d routes e

-- A destination that is found stands under its prefix.
look-home :
    (t : RouteTable) (q : Bits) (d : Dest)
    → Fits t
    → look t q ≡ some d
    → look t d.prefix.bits ≡ some d
look-home t q d h e =
    let (home, family, waits) = subst (EntryFits t.afi t.queue q) e (h.entries q) in
    ap (look t) home ∙ e

fresh-SameBest :
    (t : RouteTable) (p : Prefix) → look t p.bits ≡ none → SameBest t (enqueue t (fresh p))
fresh-SameBest t p e = enqueue-SameBest t (fresh p) (ap best_of e)

offer-SameBest_at :
    (t : RouteTable) (r : Route) (o : Option Dest)
    → look t r.prefix.bits ≡ o
    → Fits t
    → SameBest t (after t (offer_to r (ok (or_fresh t r.prefix o))))
offer-SameBest_at t r (some d) e h =
    settle-SameBest t d r (place r d.routes) (look-home t r.prefix.bits d h e)
offer-SameBest_at t r none e h = λ p.
    settle-SameBest (enqueue t (fresh r.prefix)) (record (fresh r.prefix) { queued = true }) r
      (place r []) (look-fresh t r.prefix) p
    ∙ fresh-SameBest t r.prefix e p

offer-SameBest :
    (t : RouteTable) (r : Route) (b : Bool)
    → Fits t
    → SameBest t (
        after t (
          offer_to r (
            if not b
            then raises wrong_family
            else ok (or_fresh t r.prefix (look t r.prefix.bits)))))
offer-SameBest t r true h = offer-SameBest_at t r (look t r.prefix.bits) refl h
offer-SameBest t r false h = λ p. refl

retract-SameBest_at :
    (t : RouteTable) (q : Bits) (protocol source : ℕ) (o : Option Dest)
    → look t q ≡ o
    → Fits t
    → SameBest t (retract_from t protocol source o).0
retract-SameBest_at t q protocol source none e h = λ p. refl
retract-SameBest_at t q protocol source (some d) e h =
    take_away-SameBest t d (removed protocol source d.routes) (look-home t q d h e)

retract-SameBest :
    (t : RouteTable) (q : Bits) (protocol source : ℕ) (b : Bool)
    → Fits t
    → SameBest t (retract_from t protocol source (if b then look t q else none)).0
retract-SameBest t q protocol source true h =
    retract-SameBest_at t q protocol source (look t q) refl h
retract-SameBest t q protocol source false h = λ p. refl

intern-SameBest_at :
    (t : RouteTable) (p : Prefix) (o : Option Dest)
    → look t p.bits ≡ o
    → SameBest t (or_fresh t p o).0
intern-SameBest_at t p (some d) e = λ q. refl
intern-SameBest_at t p none e = fresh-SameBest t p e

intern-SameBest :
    (t : RouteTable) (p : Prefix) (b : Bool)
    → SameBest t
        (after t (if not b then raises wrong_family else ok (or_fresh t p (look t p.bits))))
intern-SameBest t p true = intern-SameBest_at t p (look t p.bits) refl
intern-SameBest t p false = λ q. refl

-- A call that is not a selection pass.
abbrev pub IsNoPass : TableOp → Type 0
IsNoPass (select_some limit) = ⊥
IsNoPass (offer_route r) = Unit
IsNoPass (retract_route p protocol source) = Unit
IsNoPass (intern p) = Unit

apply-SameBest : (op : TableOp) (t : RouteTable) → IsNoPass op → Fits t → SameBest t (apply op t)
unfolding offer dest retract get Ops.get
apply-SameBest (offer_route r) t n h = offer-SameBest t r (eqb r.prefix.afi t.afi) h
apply-SameBest (retract_route p protocol source) t n h =
    retract-SameBest t p.bits protocol source (eqb p.afi t.trie.afi) h
apply-SameBest (intern p) t n h = intern-SameBest t p (eqb p.afi t.afi)
apply-SameBest (select_some limit) t n h = absurd n

-- Offers, withdrawals and lookups that create leave the best routes of a table that fits: until a
-- pass, a prefix without candidates still has the route that was withdrawn.
pub run-SameBest :
    (ops : List TableOp) (t : RouteTable)
    → Fits t
    → All IsNoPass ops
    → (p : Bits) → best_of (look (run ops t) p) ≡ best_of (look t p)
run-SameBest [] t h n p = refl
run-SameBest (op ∷ ops) t h n p =
    run-SameBest ops (apply op t) (run-Fits (op ∷ []) t h) n.1 p ∙ apply-SameBest op t n.0 h p
