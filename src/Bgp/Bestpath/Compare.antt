-- ===== src/Bgp/Bestpath/Compare.antt =====
-- packets/routing/rtengine/plugins/bgp/bestpath.pyx: `path_cmp`, with the fields of the classes that
-- it reads. A field of an `AttrSet` that a flag declares absent is `none`.
use packets.Base.{
  ℕ, Bool, true, false, not, ◌&&◌, ◌||◌, Option, none, some, length, if◌then◌else◌, eqb,
}
use packets.Rib.Route.{Bytes}
use packets.Rib.RouteTable.Select.{Sign, before, tie, after}
use packets.Bgp.Bestpath.Order.{smaller, or_else, by_bytes}

-- `attrs.AttrSet`
pub record AttrSet : Type 0 where
  pub origin : ℕ
  pub as_path : Bytes
  pub nexthop : Bytes
  pub med : Option ℕ
  pub local_pref : Option ℕ
  pub originator_id : Option ℕ
  pub as_path_len : ℕ
  pub neighbor_as : ℕ
  pub cluster_len : ℕ

-- `handle` stands for the object's identity.
pub record PeerRef : Type 0 where
  pub handle : ℕ
  pub router_id : ℕ
  pub addr : Bytes
  pub is_ebgp : Bool

-- `handle` stands for the object's identity; of the time only the order matters. The marks `best` and
-- `multipath` are read off the result of a selection.
pub record BgpPath : Type 0 where
  pub handle : ℕ
  pub attrs : AttrSet
  pub peer : PeerRef
  pub path_id : ℕ
  pub weight : ℕ
  pub source : ℕ
  pub igp_metric : ℕ
  pub recv_time : ℕ
  pub resolved : Bool

pub record BestpathConfig : Type 0 where
  pub always_compare_med : Bool
  pub deterministic_med : Bool
  pub med_missing_as_worst : Bool
  pub compare_router_id : Bool
  pub as_path_ignore : Bool
  pub as_path_multipath_relax : Bool
  pub maximum_paths : ℕ
  pub maximum_paths_ibgp : ℕ
  pub default_local_pref : ℕ

-- The constructor: a limit of 0 is read as 1. The numbers are unsigned, of 8 bits for the limits.
abbrev pub at_least_one : ℕ → ℕ
at_least_one n = if eqb n 0 then 1 else n

abbrev pub bestpath_config : BestpathConfig → BestpathConfig
bestpath_config given = record given {
  maximum_paths = at_least_one given.maximum_paths;
  maximum_paths_ibgp = at_least_one given.maximum_paths_ibgp;
}

-- Where a path came from.
abbrev pub src_local : ℕ
src_local = 0

abbrev pub src_aggregate : ℕ
src_aggregate = 1

abbrev pub src_redist : ℕ
src_redist = 2

abbrev pub src_peer : ℕ
src_peer = 3

-- The steps of the decision process.
abbrev pub step_none : ℕ
step_none = 0

abbrev pub step_resolved : ℕ
step_resolved = 1

abbrev pub step_weight : ℕ
step_weight = 2

abbrev pub step_local_pref : ℕ
step_local_pref = 3

abbrev pub step_originated : ℕ
step_originated = 4

abbrev pub step_as_path : ℕ
step_as_path = 5

abbrev pub step_origin : ℕ
step_origin = 6

abbrev pub step_med : ℕ
step_med = 7

abbrev pub step_external : ℕ
step_external = 8

abbrev pub step_igp_metric : ℕ
step_igp_metric = 9

abbrev pub step_age : ℕ
step_age = 10

abbrev pub step_router_id : ℕ
step_router_id = 11

abbrev pub step_cluster_list : ℕ
step_cluster_list = 12

abbrev pub step_peer_addr : ℕ
step_peer_addr = 13

abbrev pub multipath_boundary : ℕ
multipath_boundary = 9

abbrev pub med_worst : ℕ
med_worst = 4294967295

abbrev pub get_or : ℕ → Option ℕ → ℕ
get_or default none = default
get_or default (some n) = n

-- `_med_of`
abbrev pub med_of : BestpathConfig → BgpPath → ℕ
med_of cfg p = get_or (if cfg.med_missing_as_worst then med_worst else 0) p.attrs.med

-- `_router_id_of`
abbrev pub router_id_of : BgpPath → ℕ
router_id_of p = get_or p.peer.router_id p.attrs.originator_id

-- `_cmp_addr`
abbrev pub cmp_addr : Bytes → Bytes → Sign
cmp_addr x y = or_else (smaller (length x) (length y)) (by_bytes x y)

-- The rank of a flag that wins if it is set.
abbrev pub set_first : Bool → ℕ
set_first flag = if flag then 0 else 1

abbrev pub local_pref_of : BestpathConfig → BgpPath → ℕ
local_pref_of cfg p = get_or cfg.default_local_pref p.attrs.local_pref

-- One step: what follows is asked only if the two are equal here.
unfoldable pub ask : Sign → ℕ → Sign × ℕ → Sign × ℕ
ask before step rest = (before, step)
ask tie step rest = rest
ask after step rest = (after, step)

-- The same step, if it applies.
unfoldable pub ask_if : Bool → Sign → ℕ → Sign × ℕ → Sign × ℕ
ask_if true s step rest = ask s step rest
ask_if false s step rest = rest

-- `path_cmp`, with the step that decided
unfoldable pub path_cmp : BestpathConfig → BgpPath → BgpPath → Sign × ℕ
path_cmp cfg a b = ask (smaller (set_first a.resolved) (set_first b.resolved)) step_resolved (
    ask (smaller b.weight a.weight) step_weight (
      ask (smaller (local_pref_of cfg b) (local_pref_of cfg a)) step_local_pref (
        ask (smaller a.source b.source) step_originated (
          ask_if (not cfg.as_path_ignore) (smaller a.attrs.as_path_len b.attrs.as_path_len)
            step_as_path
            (ask (smaller a.attrs.origin b.attrs.origin) step_origin (
              ask_if (cfg.always_compare_med || eqb a.attrs.neighbor_as b.attrs.neighbor_as)
                (smaller (med_of cfg a) (med_of cfg b)) step_med
                (ask (smaller (set_first a.peer.is_ebgp) (set_first b.peer.is_ebgp)) step_external (
                  ask (smaller a.igp_metric b.igp_metric) step_igp_metric (
                    ask_if (not cfg.compare_router_id && (a.peer.is_ebgp && b.peer.is_ebgp))
                      (smaller a.recv_time b.recv_time) step_age
                      (ask (smaller (router_id_of a) (router_id_of b)) step_router_id (
                        ask (smaller a.attrs.cluster_len b.attrs.cluster_len) step_cluster_list (
                          ask (cmp_addr a.peer.addr b.peer.addr) step_peer_addr
                            (tie, step_none)))))))))))))
