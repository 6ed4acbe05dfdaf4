-- ===== src/Rib/RouteTable/Ops.antt =====
-- packets/routing/rtengine/rib/table.pyx: `RouteTable`. A `Dest` lives in the trie, under the bits of
-- its prefix, and the change queue holds those bits: the list is `_queue` from `_qhead` on, which is
-- all that the compaction keeps. Arguments that are `None` are excluded by the types.
use packets.Base.{
  ℕ, ◌+◌, ◌-◌, Bool, true, false, not, ◌&&◌, ◌||◌, Option, none, some, List, [], ◌∷◌, ◌++◌, eqb,
  ltb, if◌then◌else◌,
}
use packets.Rib.Route.{Prefix, Route, Dest}
use packets.Rib.Trie.Bits.{Bits}
use packets.Rib.Trie.Node.{nil, node_exact}
use packets.Rib.Trie.Ops.{
  Key, Trie, Result, ok, raises, unsupported_family, wrong_family, addr_bits, store,
}
use packets.Rib.Trie.Ops
use packets.Rib.RouteTable.Select.{
  select, same_object, Place, kept, replaced, absent, place, removed,
}

pub record RouteTable : Type 0 where
  pub afi : ℕ
  pub trie : Trie Dest
  pub queue : List Bits
  pub route_count : ℕ
  pub version : ℕ

-- `__cinit__`
unfoldable pub new : ℕ → Result RouteTable
new afi =
    if eqb (addr_bits afi) 0
    then raises unsupported_family
    else ok (record {
      afi = afi;
      trie = record { root = nil; afi = afi; count = 0 };
      queue = [];
      route_count = 0;
      version = 0;
    })

-- A prefix as a key of the trie.
abbrev pub key : Prefix → Key
key p = record { afi = p.afi; bits = p.bits }

-- The writes to the fields of a destination.
unfoldable pub write : RouteTable → Dest → RouteTable
write t d = record t { trie = (store t.trie d.prefix.bits d).0 }

-- `get`
unfoldable pub get : RouteTable → Prefix → Option Dest
get t p = Ops.get t.trie (key p)

-- `_enqueue`, of a destination whose fields were just written: `write` does the writes, and the flag
-- and the queue change only if it does not wait yet.
unfoldable pub enqueue : RouteTable → Dest → RouteTable
enqueue t d =
    if d.queued
    then write t d
    else record (write t (record d { queued = true })) { queue = t.queue ++ d.prefix.bits ∷ [] }

abbrev pub fresh : Prefix → Dest
fresh p = record { prefix = p; routes = []; best = none; version = 0; queued = false }

abbrev pub or_fresh : RouteTable → Prefix → Option Dest → RouteTable × Dest
or_fresh t p none = (enqueue t (fresh p), record (fresh p) { queued = true })
or_fresh t p (some d) = (t, d)

-- `dest`, with the destination that it returns
unfoldable pub dest : RouteTable → Prefix → Result (RouteTable × Dest)
dest t p =
    if not (eqb p.afi t.afi)
    then raises wrong_family
    else ok (or_fresh t p (node_exact t.trie.root p.bits))

-- What `offer` does with what its loop finds; 1 if an offer was replaced.
abbrev pub settle : RouteTable → Dest → Route → Place → RouteTable × ℕ
settle t d r kept = (t, 1)
settle t d r (replaced routes) = (enqueue t (record d { routes = routes }), 1)
settle t d r absent = (
  enqueue (record t { route_count = t.route_count + 1 }) (record d { routes = d.routes ++ r ∷ [] }),
  0,
)

abbrev pub offer_to : Route → Result (RouteTable × Dest) → Result (RouteTable × ℕ)
offer_to r (raises e) = raises e
offer_to r (ok (t, d)) = ok (settle t d r (place r d.routes))

-- `offer`
unfoldable pub offer : RouteTable → Route → Result (RouteTable × ℕ)
offer t r = offer_to r (dest t r.prefix)

abbrev pub take_away : RouteTable → Dest → Option (List Route) → RouteTable × ℕ
take_away t d none = (t, 0)
take_away t d (some routes) =
    (enqueue (record t { route_count = t.route_count - 1 }) (record d { routes = routes }), 1)

abbrev pub retract_from : RouteTable → ℕ → ℕ → Option Dest → RouteTable × ℕ
retract_from t protocol source none = (t, 0)
retract_from t protocol source (some d) = take_away t d (removed protocol source d.routes)

-- `retract`, with 1 if a route was removed
unfoldable pub retract : RouteTable → Prefix → ℕ → ℕ → RouteTable × ℕ
retract t p protocol source = retract_from t protocol source (get t p)

-- The destination after `_select`, and the version of the table.
abbrev pub decide : ℕ → Dest → ℕ × Dest
decide version d =
    let winner = select d.routes in
    if not (same_object winner d.best)
    then (version + 1, record d { best = winner; version = version + 1; queued = false })
    else (version, record d { queued = false })

abbrev pub is_none : Option Route → Bool
is_none none = true
is_none (some r) = false

abbrev pub is_empty : List Route → Bool
is_empty [] = true
is_empty (r ∷ routes) = false

-- `winner is None and len(d.routes) == 0`
abbrev pub gone : Dest → Bool
gone d = is_none (select d.routes) && is_empty d.routes

-- The body of the loop of `reselect`
abbrev pub select_at : RouteTable → Option Dest → RouteTable × List Dest
select_at t none = (t, [])
select_at t (some d) =
    let (version, d') = decide t.version d in
    let changed = if not (same_object (select d.routes) d.best) then d' ∷ [] else [] in
    if gone d
    then (record t { version = version; trie = (Ops.remove t.trie (key d.prefix)).0 }, changed)
    else (write (record t { version = version }) d', changed)

-- The loop of `reselect`; the queue is what is left of it.
unfoldable pub drain : ℕ → ℕ → List Bits → RouteTable → List Dest → RouteTable × List Dest
drain limit done [] t changed = (record t { queue = [] }, changed)
drain limit done (k ∷ queue) t changed =
    let (t', more) = select_at t (node_exact t.trie.root k) in
    let rest = drain limit (done + 1) queue t' (changed ++ more) in
    if eqb limit 0 || ltb done limit then rest else (record t { queue = k ∷ queue }, changed)

-- `reselect`, with the destinations whose best route changed; a limit below 0 is one of 0
unfoldable pub reselect : ℕ → RouteTable → RouteTable × List Dest
reselect limit t = drain limit 0 t.queue t []
