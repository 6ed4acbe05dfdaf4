-- ===== src/Rib/RouteTable/Select.antt =====
-- packets/routing/rtengine/rib/table.pyx: `route_cmp`, `Dest._select`, `Route.same_origin` and the
-- candidates of one prefix.
use packets.Base.{
  ℕ, Bool, true, false, not, ◌&&◌, Option, none, some, List, [], ◌∷◌, eqb, ltb, if◌then◌else◌, ◌==◌,
  list_key, nat_key,
}
use packets.Rib.Route.{Route}

-- The sign of the result of `route_cmp`.
pub data Sign : Type 0 where
  before : Sign
  tie : Sign
  after : Sign

-- `return -1 if x < y else 1`
abbrev pub sign_of : ℕ → ℕ → Sign
sign_of x y = if ltb x y then before else after

unfoldable pub route_cmp : Route → Route → Sign
route_cmp a b =
    if not (eqb a.admin_distance b.admin_distance)
    then sign_of a.admin_distance b.admin_distance
    else if not (eqb a.metric b.metric)
    then sign_of a.metric b.metric
    else if not (eqb a.protocol b.protocol)
    then sign_of a.protocol b.protocol
    else if not (eqb a.recv_time b.recv_time)
    then sign_of a.recv_time b.recv_time
    else tie

-- `route_cmp(a, b) < 0`
abbrev pub is_before : Sign → Bool
is_before before = true
is_before tie = false
is_before after = false

abbrev pub preferred : Route → Option Route → Bool
preferred r none = true
preferred r (some best) = is_before (route_cmp r best)

-- The loop of `_select`
unfoldable pub select_from : Option Route → List Route → Option Route
select_from best [] = best
select_from best (r ∷ routes) = select_from (if preferred r best then some r else best) routes

-- `Dest._select`
abbrev pub select : List Route → Option Route
select routes = select_from none routes

-- `is` between two winners.
abbrev pub same_object : Option Route → Option Route → Bool
same_object none none = true
same_object none (some b) = false
same_object (some a) none = false
same_object (some a) (some b) = eqb a.handle b.handle

unfoldable pub same_origin : Route → Route → Bool
same_origin a b = eqb a.protocol b.protocol && eqb a.source b.source

-- `_same_content`
unfoldable pub same_content : Route → Route → Bool
same_content a b =
    eqb a.admin_distance b.admin_distance && (eqb a.metric b.metric && a.nexthop == b.nexthop)

-- What the loop of `offer` finds.
pub data Place : Type 0 where
  kept : Place
  replaced : List Route → Place
  absent : Place

abbrev pub past : Route → Place → Place
past x kept = kept
past x (replaced routes) = replaced (x ∷ routes)
past x absent = absent

-- The loop of `offer`
unfoldable pub place : Route → List Route → Place
place r [] = absent
place r (x ∷ routes) =
    let rest = place r routes in
    if same_origin x r
    then (if same_content x r then kept else replaced (r ∷ routes))
    else past x rest

abbrev pub past_removed : Route → Option (List Route) → Option (List Route)
past_removed x none = none
past_removed x (some routes) = some (x ∷ routes)

-- The loop of `retract`
unfoldable pub removed : ℕ → ℕ → List Route → Option (List Route)
removed protocol source [] = none
removed protocol source (x ∷ routes) =
    let rest = removed protocol source routes in
    if eqb x.protocol protocol && eqb x.source source then some routes else past_removed x rest
