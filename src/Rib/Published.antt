-- ===== src/Rib/Published.antt =====
-- packets/routing/rtengine/rib/globalrib.py: a round of calls to a table, a selection pass and the
-- publication of what it reports, as in `GlobalRib.select_step` for one table.
use packets.Base.{
  ℕ, Option, List, [], ◌∷◌, ◌≡◌, refl, sym, ap, ◌∙◌, if◌then◌else◌, All, ◌==◌, nat_key, eqb_iff,
  arith, pair_key, list_key, bool_key,
}
use packets.Base.Dict
use packets.Rib.Route.{Prefix, Route, Dest}
use packets.Rib.Sink.{FibSink}
use packets.Rib.Publish.{GlobalRib, prefix_key, publish}
use packets.Rib.Agreement.{last_best, get-publish}
use packets.Rib.RouteTable.Ops.{RouteTable, reselect}
use packets.Rib.RouteTable.State.{look, Fits}
use packets.Rib.RouteTable.Calls.{TableOp, run}
use packets.Rib.RouteTable.Replay.{run-Fits}
use packets.Rib.RouteTable.Reports.{best_of, latest, best-reselect}
use packets.Rib.RouteTable.Waiting.{IsNoPass, run-SameBest}

-- A report is of the family of a prefix.
abbrev pub SameFamily : Prefix → Dest → Type 0
SameFamily p d = d.prefix.afi ≡ p.afi

same_prefix :
    (p : Prefix) (d : Dest)
    → SameFamily p d
    → (prefix_key d.prefix == prefix_key p) ≡ (p.bits == d.prefix.bits)
same_prefix p d e =
    let bits = list_key.same_iff p.bits d.prefix.bits in
    let back = list_key.same_iff d.prefix.bits p.bits in
    ground (arith, e, eqb_iff d.prefix.afi p.afi)

last_best-latest :
    (p : Prefix) (ds : List Dest) (before : Option Route)
    → All (SameFamily p) ds
    → last_best (prefix_key p) ds before ≡ latest p.bits ds before
last_best-latest p [] before h = refl
last_best-latest p (d ∷ ds) before h =
    ap (λ b. last_best (prefix_key p) ds (if b then d.best else before)) (same_prefix p d h.0)
    ∙ last_best-latest p ds (if p.bits == d.prefix.bits then d.best else before) h.1

-- What is published for a prefix is the best route of the table, if it was before the round: after
-- any calls that are no pass, a pass of any limit, and the publication of its reports to any sink.
-- The table fits, and the reports are of the family of the prefix.
pub published-best :
    {S : Type 0} (fib : FibSink S) (afi safi limit : ℕ) (ops : List TableOp) (t : RouteTable)
    (r : GlobalRib S) (p : Prefix)
    → Fits t
    → All IsNoPass ops
    → All (SameFamily p) (reselect limit (run ops t)).1
    → Dict.get ((afi, safi), prefix_key p) r.published ≡ best_of (look t p.bits)
    → Dict.get
        ((afi, safi), prefix_key p)
        (publish fib afi safi (reselect limit (run ops t)).1 r).published
      ≡ best_of (look (reselect limit (run ops t)).0 p.bits)
published-best fib afi safi limit ops t r p fits calls families before =
    let (s, reports) = reselect limit (run ops t) in
    get-publish fib afi safi (prefix_key p) reports r
    ∙ ap (last_best (prefix_key p) reports) (before ∙ sym (run-SameBest ops t fits calls p.bits))
    ∙ last_best-latest p reports (best_of (look (run ops t) p.bits)) families
    ∙ sym (best-reselect limit (run ops t) p.bits (run-Fits ops t fits))
