-- ===== src/Rib/Resolver.antt =====
-- packets/routing/rtengine/rib/resolver.py: the resolution of a next hop. The tables are those of
-- Rib/Lookup.antt.
use packets.Base.{
  ℕ, zero, suc, ◌+◌, ◌==◌, nat_key, string_key, pair_key, String, Bool, true, false, not, Option,
  none, some, List, [], ◌∷◌, length, eqb, ◌&&◌, ◌||◌, if◌then◌else◌,
}
use packets.Rib.Route.{Bytes, Prefix, Route, Dest}
use packets.Rib.Lookup.{Table, covering_from, lpm}
use packets.Rib.Trie.Ops.{Result, ok, raises}

-- `AFI_IP` and `AFI_IP6`, and the width of their addresses.
abbrev afi_ip : ℕ
afi_ip = 1

abbrev afi_ip6 : ℕ
afi_ip6 = 2

abbrev pub addr_len : ℕ → ℕ
addr_len afi = if eqb afi afi_ip then 4 else if eqb afi afi_ip6 then 16 else 0

-- `MAX_DEPTH`
abbrev pub max_depth : ℕ
max_depth = 4

pub data Source : Type 0 where
  static_source : Source
  kernel_source : Source
  rib_source : Source

pub record Resolution : Type 0 where
  pub prefix : Prefix
  pub nexthop : Bytes
  pub metric : ℕ
  pub source : Source

pub record SourceHits : Type 0 where
  pub static_hits : ℕ
  pub kernel_hits : ℕ
  pub rib_hits : ℕ

-- The tables are by family; those of the global RIB are of the unicast SAFI.
pub record Resolver : Type 1 where
  pub enabled : Bool
  pub use_rib : Bool
  pub resolve_via_default : Bool
  pub global_rib : Option (ℕ → Option Table)
  pub static : ℕ → Option Table
  pub kernel : ℕ → Option Table
  pub lookups : ℕ
  pub hits : ℕ
  pub source_hits : SourceHits
  pub recursion_failures : ℕ

-- What `_step` returns: `(source, prefix, route)`.
pub record Step : Type 0 where
  pub source : Source
  pub prefix : Prefix
  pub route : Route

abbrev has_best : Option Route → Bool
has_best none = false
has_best (some route) = true

-- The test of `_covering`.
abbrev pub may_answer : Bool → Dest → Bool
may_answer via_default d = has_best d.best && (not (eqb d.prefix.plen 0) || via_default)

-- What a lookup found. `resolve` and the constructor of `Route` let only addresses of their family's
-- width through, for which no table raises.
abbrev pub found_by : {A : Type 0} → Result (Option A) → Option A
found_by (ok o) = o
found_by (raises e) = none

-- `_covering` of an address.
unfoldable pub covering : Bool → Table → Bytes → Option Dest
covering via_default table addr =
    covering_from (may_answer via_default) table addr (found_by (table.lpm_addr addr))

abbrev pub found_best : Source → Prefix → Option Route → Option Step
found_best source prefix none = none
found_best source prefix (some route) =
    some (record { source = source; prefix = prefix; route = route })

abbrev pub found : Source → Option Dest → Option Step
found source none = none
found source (some d) = found_best source d.prefix d.best

-- One round of the loop of `_step` over the configured tables.
abbrev pub from_table : Source → Bool → Option Table → Bytes → Option Step
from_table source via_default none addr = none
from_table source via_default (some table) addr = found source (covering via_default table addr)

-- The test `usable` of `_step`.
abbrev pub usable : Option ℕ → Bool → Route → Bool
usable none via_default route = not (eqb route.prefix.plen 0) || via_default
usable (some protocol) via_default route =
    not (eqb route.protocol protocol) && (not (eqb route.prefix.plen 0) || via_default)

abbrev pub rib_step : Option Route → Option Step
rib_step none = none
rib_step (some route) = some (record { source = rib_source; prefix = route.prefix; route = route })

abbrev pub from_rib : Resolver → ℕ → Bytes → Option ℕ → Option (ℕ → Option Table) → Option Step
from_rib r afi addr protocol none = none
from_rib r afi addr protocol (some tables) =
    if r.use_rib
    then rib_step (found_by (lpm (tables afi) addr (some (usable protocol r.resolve_via_default))))
    else none

abbrev pub or_else : Option Step → Option Step → Option Step
or_else none next = next
or_else (some s) next = some s

-- `_step`
unfoldable pub step : Resolver → ℕ → Bytes → Option ℕ → Option Step
step r afi addr protocol =
    or_else (from_table static_source r.resolve_via_default (r.static afi) addr) (
      or_else (from_table kernel_source r.resolve_via_default (r.kernel afi) addr)
        (from_rib r afi addr protocol r.global_rib))

abbrev is_rib : Source → Bool
is_rib rib_source = true
is_rib source = false

-- `source == 'rib' and route.nexthop`
abbrev pub is_recursive : Step → Bool
is_recursive s = is_rib s.source && not (eqb (length s.route.nexthop) 0)

abbrev pub resolution : Step → Resolution
resolution s = record {
  prefix = s.prefix;
  nexthop = s.route.nexthop;
  metric = s.route.metric;
  source = s.source;
}

abbrev pub nh_afi : Bytes → ℕ
nh_afi nexthop = if eqb (length nexthop) 4 then afi_ip else afi_ip6

-- The keys `(afi, prefix)` on the chain.
abbrev pub ChainKey : Type 0
ChainKey = ℕ × (ℕ × String)

abbrev pub seen_key : ℕ → Step → ChainKey
seen_key afi s = (afi, (s.prefix.afi, s.prefix.text))

abbrev pub among : ChainKey → List ChainKey → Bool
among key [] = false
among key (k ∷ ks) = key == k || among key ks

-- The answer of a lookup with what it leaves of the resolver.
abbrev pub Answer : Type 1
Answer = Option Resolution × Resolver

abbrev pub give_up : Resolver → Answer
give_up r = (none, record r { recursion_failures = r.recursion_failures + 1 })

abbrev pub confirm : Step → Answer → Answer
confirm s (none, r) = (none, r)
confirm s (some next, r) = (some (resolution s), r)

-- `_resolve` after the lookup, by the conditions of its two `if`s
abbrev pub settle : Bool → Bool → (Step → Answer) → Step → Resolver → Answer
settle false refused next s r = (some (resolution s), r)
settle true true next s r = give_up r
settle true false next s r = confirm s (next s)

abbrev pub follow : Bool → (Step → Answer) → ℕ → List ChainKey → Resolver → Option Step → Answer
follow exhausted next afi seen r none = (none, r)
follow exhausted next afi seen r (some s) =
    settle (is_recursive s) (among (seen_key afi s) seen || exhausted) next s r

-- `_resolve`; the first number is how many levels are left, `MAX_DEPTH - depth`.
unfoldable pub resolve_from : ℕ → ℕ → Bytes → Option ℕ → List ChainKey → Resolver → Answer
resolve_from zero afi addr protocol seen r =
    follow true (λ s. give_up r) afi seen r (step r afi addr protocol)
resolve_from (suc left) afi addr protocol seen r =
    follow false
      (λ s.
        resolve_from left (nh_afi s.route.nexthop) s.route.nexthop protocol (seen_key afi s ∷ seen)
          r)
      afi seen r (step r afi addr protocol)

abbrev pub count_source : Source → SourceHits → SourceHits
count_source static_source h = record h { static_hits = h.static_hits + 1 }
count_source kernel_source h = record h { kernel_hits = h.kernel_hits + 1 }
count_source rib_source h = record h { rib_hits = h.rib_hits + 1 }

abbrev pub count_hit : Answer → Answer
count_hit (none, r) = (none, r)
count_hit (some found, r) = (
  some found,
  record r { hits = r.hits + 1; source_hits = count_source found.source r.source_hits },
)

-- `resolve`; none for the ValueError.
unfoldable pub resolve : ℕ → Bytes → Option ℕ → Resolver → Option Answer
resolve afi addr protocol r =
    if eqb (addr_len afi) 0
    then none
    else if not (eqb (length addr) (addr_len afi))
    then none
    else some (
        count_hit
          (resolve_from max_depth afi addr protocol [] (record r { lookups = r.lookups + 1 })))

abbrev pub is_found : Option Answer → Option (Bool × Resolver)
is_found none = none
is_found (some (none, r)) = some (false, r)
is_found (some (some found, r)) = some (true, r)

-- `reachable`
unfoldable pub reachable : ℕ → Bytes → Option ℕ → Resolver → Option (Bool × Resolver)
reachable afi addr protocol r =
    if not r.enabled then some (true, r) else is_found (resolve afi addr protocol r)

abbrev pub metric_of : Option Answer → Option (ℕ × Resolver)
metric_of none = none
metric_of (some (none, r)) = some (0, r)
metric_of (some (some found, r)) = some (found.metric, r)

-- `igp_metric`
unfoldable pub igp_metric : ℕ → Bytes → Option ℕ → Resolver → Option (ℕ × Resolver)
igp_metric afi addr protocol r =
    if not r.enabled then some (0, r) else metric_of (resolve afi addr protocol r)
