-- ===== src/Rib/RouteTable/Examples.antt =====
-- packets/routing/rtengine/rib/table.pyx: the theorems at an empty table that two protocols fill.
use packets.Base.{ℕ, true, false, List, [], ◌∷◌, ◌≡◌, refl}
use packets.Rib.Route.{Prefix, Route}
use packets.Rib.Trie.Node.{nil, node_exact}
use packets.Rib.RouteTable.Select.{select}
use packets.Rib.RouteTable.Best.{Chosen, select-Chosen}
use packets.Rib.RouteTable.Ops.{RouteTable, get, reselect}
use packets.Rib.RouteTable.State.{look, routes_of, Fits}
use packets.Rib.RouteTable.Calls.{
  TableOp, offer_route, retract_route, intern, select_some, run, replay,
}
use packets.Rib.RouteTable.Replay.{run-Fits}
use packets.Rib.RouteTable.Converge.{Converged, reselect-Converged}
use packets.Rib.RouteTable.Waiting.{run-SameBest}
use packets.Rib.RouteTable.Reports.{best_of, latest, best-reselect}

abbrev pub net : Prefix
net = record { afi = 1; bits = true ∷ false ∷ []; text = "128.0.0.0/2"; plen = 2 }

module _ (handle protocol distance : ℕ) where
  abbrev route : Route
  route = record {
    handle = handle;
    prefix = net;
    protocol = protocol;
    admin_distance = distance;
    metric = 0;
    nexthop = [];
    source = handle;
    recv_time = handle;
  }

abbrev candidates : List Route
candidates = route 1 3 200 ∷ route 2 3 20 ∷ route 3 3 20 ∷ []

select-Chosen_example : Chosen candidates (select candidates)
select-Chosen_example = select-Chosen candidates

abbrev pub empty : RouteTable
empty = record {
  afi = 1;
  trie = record { root = nil; afi = 1; count = 0 };
  queue = [];
  route_count = 0;
  version = 0;
}

empty-Fits : Fits empty
unfolding node_exact
empty-Fits = record {
  valid = record { under = tt; compact = tt; counted = refl };
  family = refl;
  entries = λ p. tt;
}

abbrev calls : List TableOp
calls =
    offer_route (route 1 3 200)
    ∷ intern (record net { bits = [] })
    ∷ select_some 1
    ∷ offer_route (route 2 3 20)
    ∷ retract_route net 3 1
    ∷ []

reselect-Converged_example :
    ((reselect 0 (run calls empty)).0.queue ≡ [])
    × Converged
        (replay 1 calls (λ p. routes_of (look empty p)) net.bits)
        (get (reselect 0 (run calls empty)).0 net)
reselect-Converged_example = reselect-Converged calls empty net empty-Fits refl

best-reselect_example :
    best_of (look (reselect 1 (run calls empty)).0 net.bits)
    ≡ latest net.bits (reselect 1 (run calls empty)).1 (best_of (look (run calls empty) net.bits))
best-reselect_example = best-reselect 1 (run calls empty) net.bits (run-Fits calls empty empty-Fits)

abbrev pub first_calls : List TableOp
first_calls = offer_route (route 1 3 200) ∷ []

abbrev pub filled : RouteTable
filled = (reselect 0 (run first_calls empty)).0

pub filled-Fits : Fits filled
filled-Fits = run-Fits (offer_route (route 1 3 200) ∷ select_some 0 ∷ []) empty empty-Fits

abbrev pub next_calls : List TableOp
next_calls = retract_route net 3 1 ∷ offer_route (route 2 3 20) ∷ []

run-SameBest_example :
    best_of (look (run next_calls filled) net.bits) ≡ best_of (look filled net.bits)
run-SameBest_example = run-SameBest next_calls filled filled-Fits (tt, (tt, tt)) net.bits
