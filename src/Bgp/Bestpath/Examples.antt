-- ===== src/Bgp/Bestpath/Examples.antt =====
-- packets/routing/rtengine/plugins/bgp/bestpath.pyx: two paths of one neighbouring AS and one of another,
-- in two orders.
use packets.Base.{arith, ℕ, true, false, none, some, List, [], ◌∷◌, ◌++◌, ◌≡◌, ◌↔◌, refl, inl, inr}
use mathlib.Core.Logic.{∥∥₁_map}
use mathlib.Core.List.{Mem, Memᴰ}
use mathlib.Core.List.Memᴰ.{
  cases_cons, not-nil, append_cases, append_left, append_right, head, tail,
}
use packets.Base.Dict.{put, get}
use packets.Rib.Route.{Prefix}
use packets.Bgp.Bestpath.Compare.{
  step_none, step_age, AttrSet, PeerRef, BgpPath, BestpathConfig, bestpath_config, src_peer,
  path_cmp, ask, ask_if,
}
use packets.Bgp.Bestpath.Select.{
  decisive_from, select, champion, group_winners, insert_key, fill, fill_multipath,
}
use packets.Bgp.Bestpath.Choice.{IsChoice, Ties, select-IsChoice, select_independent}
use packets.Bgp.Bestpath.Multipath.{IsMultipath, select-IsMultipath}
use packets.Bgp.Bestpath.Explain.{explain, latest_loss, explain-reason}
use packets.Bgp.Bestpath.Dest.{new, replaced, taken}
use packets.Bgp.Bestpath.DestMap.{
  DestOp, Reads, run, replay, add_path, remove_path, choose, find-run,
}

abbrev grouping : BestpathConfig
grouping = bestpath_config (record {
  always_compare_med = false;
  deterministic_med = true;
  med_missing_as_worst = false;
  compare_router_id = false;
  as_path_ignore = false;
  as_path_multipath_relax = true;
  maximum_paths = 4;
  maximum_paths_ibgp = 0;
  default_local_pref = 100;
})

abbrev attrs : ℕ → ℕ → AttrSet
attrs neighbor_as med = record {
  origin = 0;
  as_path = neighbor_as ∷ [];
  nexthop = 10 ∷ 0 ∷ 0 ∷ 1 ∷ [];
  med = some med;
  local_pref = none;
  originator_id = none;
  as_path_len = 1;
  neighbor_as = neighbor_as;
  cluster_len = 0;
}

abbrev neighbor : ℕ → PeerRef
neighbor n = record { handle = n; router_id = n; addr = 10 ∷ 0 ∷ 0 ∷ n ∷ []; is_ebgp = true }

abbrev path : ℕ → AttrSet → ℕ → BgpPath
path n a igp_metric = record {
  handle = n;
  attrs = a;
  peer = neighbor n;
  path_id = 0;
  weight = 0;
  source = src_peer;
  igp_metric = igp_metric;
  recv_time = n;
  resolved = true;
}

-- The first loses to the second by MED, the second to the third and the third to the first by metric;
-- the fourth is as good as the third up to its age.
abbrev dear : BgpPath
dear = path 1 (attrs 65001 10) 1

abbrev cheap : BgpPath
cheap = path 2 (attrs 65001 5) 5

abbrev elsewhere : BgpPath
elsewhere = path 3 (attrs 65002 0) 3

abbrev beside : BgpPath
beside = path 4 (attrs 65002 0) 3

abbrev arrived : List BgpPath
arrived = dear ∷ cheap ∷ elsewhere ∷ []

abbrev rotated : List BgpPath
rotated = cheap ∷ elsewhere ∷ dear ∷ []

rotate : (p x : BgpPath) (l : List BgpPath) → Memᴰ p (x ∷ l) → Memᴰ p (l ++ x ∷ [])
rotate p x l m = elim (cases_cons m) [
  | inl e ↦ append_right l (head e)
  | inr d ↦ append_left (x ∷ []) d
]

rotate_back : (p x : BgpPath) (l : List BgpPath) → Memᴰ p (l ++ x ∷ []) → Memᴰ p (x ∷ l)
rotate_back p x l m = elim (append_cases l m) [
  | inl d ↦ tail d
  | inr d ↦ elim (cases_cons d) [
    | inl e ↦ head e
    | inr none_left ↦ tail (absurd (not-nil none_left))
  ]
]

same_members : (p : BgpPath) → Mem p arrived ↔ Mem p rotated
same_members p = (
  λ m. ∥∥₁_map m (rotate p dear (cheap ∷ elsewhere ∷ [])),
  λ m. ∥∥₁_map m (rotate_back p dear (cheap ∷ elsewhere ∷ [])),
)

select_test :
    ((select grouping arrived).best ≡ some elsewhere)
    × ((select grouping rotated).best ≡ some elsewhere)
unfolding select champion group_winners insert_key put get path_cmp ask ask_if
select_test = (refl, refl)

-- Without the groups the order decides.
abbrev linear : BestpathConfig
linear = record grouping { deterministic_med = false }

select-linear_test :
    ((select linear arrived).best ≡ some elsewhere) × ((select linear rotated).best ≡ some dear)
unfolding select champion path_cmp ask ask_if
select-linear_test = (refl, refl)

multipath_test : (select grouping (arrived ++ beside ∷ [])).multipath ≡ elsewhere ∷ beside ∷ []
unfolding select champion group_winners insert_key put get path_cmp ask ask_if fill_multipath fill
multipath_test = refl

select-IsChoice_example : IsChoice grouping arrived (select grouping arrived).best
select-IsChoice_example = select-IsChoice grouping refl arrived

select_independent_example :
    Ties grouping (select grouping arrived).best (select grouping rotated).best
select_independent_example = select_independent grouping refl arrived rotated same_members

abbrev four : List BgpPath
four = arrived ++ beside ∷ []

select-IsMultipath_example :
    IsMultipath grouping four (select grouping four) (select grouping four).best
select-IsMultipath_example = select-IsMultipath grouping four

abbrev prefix : Prefix
prefix = record { afi = 1; bits = []; text = "0.0.0.0/0"; plen = 0 }

abbrev calls : List DestOp
calls =
    add_path dear
    ∷ add_path cheap
    ∷ add_path (record dear { igp_metric = 7 })
    ∷ choose grouping
    ∷ remove_path (neighbor 2) 0
    ∷ []

find_test : (run calls (new prefix)).paths ≡ record dear { igp_metric = 7 } ∷ []
unfolding replaced taken
find_test = refl

find-run_example : Reads (run calls (new prefix)) (replay calls (λ h i. none))
find-run_example = find-run prefix calls

explain-reason_example :
    (select grouping four).reason ≡ latest_loss step_none (explain four grouping).rows
explain-reason_example = explain-reason grouping four (omega arith)

reason_test : (select grouping four).reason ≡ step_age
unfolding select champion group_winners insert_key put get path_cmp ask ask_if decisive_from
reason_test = refl
