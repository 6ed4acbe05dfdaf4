-- ===== src/Bgp/Attrs/Content.antt =====
-- packets/routing/rtengine/plugins/bgp/attrs.pyx: what an attribute set holds, and `attrs_cmp`.
use packets.Base.{ℕ, ◌+◌, Bool, Option, none, some, length, if◌then◌else◌}
use packets.Rib.Route.{Bytes}
use packets.Rib.RouteTable.Select.{Sign, tie}
use packets.Bgp.Bestpath.Order.{smaller, or_else, by_bytes}

-- The fields of `AttrSet` that are compared. An attribute that a flag declares absent is `none`.
pub record Content : Type 0 where
  pub origin : ℕ
  pub as_path : Bytes
  pub nexthop : Bytes
  pub nexthop_local : Bytes
  pub med : Option ℕ
  pub local_pref : Option ℕ
  pub atomic_aggregate : Bool
  pub originator_id : Option ℕ
  pub communities : Bytes
  pub ext_communities : Bytes
  pub large_communities : Bytes
  pub cluster_list : Bytes
  pub aggregator : Bytes
  pub unknown : Bytes

-- `_cmp_bytes`
abbrev pub cmp_bytes : Bytes → Bytes → Sign
cmp_bytes x y = or_else (smaller (length x) (length y)) (by_bytes x y)

abbrev bit : Option ℕ → ℕ → ℕ
bit none weight = 0
bit (some n) weight = weight

-- The presence bits
abbrev pub presence : Content → ℕ
presence a =
    bit a.med 1 + bit a.local_pref 2 + (if a.atomic_aggregate then 4 else 0) + bit a.originator_id 8

-- A value that is compared only if it is present; the presence bits are equal here.
abbrev pub cmp_if_present : Option ℕ → Option ℕ → Sign
cmp_if_present none n = tie
cmp_if_present (some m) none = tie
cmp_if_present (some m) (some n) = smaller m n

unfoldable pub attrs_cmp : Content → Content → Sign
attrs_cmp a b = or_else (smaller a.origin b.origin) (
    or_else (smaller (presence a) (presence b)) (
      or_else (cmp_bytes a.as_path b.as_path) (
        or_else (cmp_bytes a.nexthop b.nexthop) (
          or_else (cmp_bytes a.nexthop_local b.nexthop_local) (
            or_else (cmp_if_present a.med b.med) (
              or_else (cmp_if_present a.local_pref b.local_pref) (
                or_else (cmp_bytes a.communities b.communities) (
                  or_else (cmp_bytes a.ext_communities b.ext_communities) (
                    or_else (cmp_bytes a.large_communities b.large_communities) (
                      or_else (cmp_if_present a.originator_id b.originator_id) (
                        or_else (cmp_bytes a.cluster_list b.cluster_list) (
                          or_else (cmp_bytes a.aggregator b.aggregator)
                            (cmp_bytes a.unknown b.unknown)))))))))))))
