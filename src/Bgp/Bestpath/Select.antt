-- ===== src/Bgp/Bestpath/Select.antt =====
-- packets/routing/rtengine/plugins/bgp/bestpath.pyx: `_select` and the functions that it calls.
use packets.Base.{
  ℕ, ◌+◌, ◌-◌, Bool, true, false, not, ◌&&◌, ◌||◌, Option, none, some, List, [], ◌∷◌, ◌++◌, length,
  if◌then◌else◌, eqb, ltb, leb, ◌==◌, nat_key, list_key,
}
use packets.Base.Dict.{Dict, get, put}
use packets.Rib.RouteTable.Select.{Sign, before, tie, after}
use packets.Bgp.Bestpath.Compare.{
  BgpPath, BestpathConfig, path_cmp, step_none, step_resolved, multipath_boundary,
}

pub record BestpathResult : Type 0 where
  pub best : Option BgpPath
  pub multipath : List BgpPath
  pub reason : ℕ
  pub considered : ℕ
  pub comparisons : ℕ

-- `is`
abbrev pub same_path : BgpPath → BgpPath → Bool
same_path a b = eqb a.handle b.handle

abbrev pub is_after : Sign → Bool
is_after before = false
is_after tie = false
is_after after = true

-- The one of two that a loop goes on with: `if path_cmp(cur, p, cfg, &step) > 0`
abbrev pub stronger : BestpathConfig → BgpPath → BgpPath → BgpPath
stronger cfg cur p = if is_after (path_cmp cfg cur p).0 then p else cur

-- The loop of `_select`
unfoldable pub champion : BestpathConfig → BgpPath → List BgpPath → BgpPath
champion cfg best [] = best
champion cfg best (p ∷ paths) = champion cfg (stronger cfg best p) paths

abbrev pub resolved_of : List BgpPath → List BgpPath
resolved_of [] = []
resolved_of (p ∷ paths) = if p.resolved then p ∷ resolved_of paths else resolved_of paths

-- `_med_group_winners`: the loop over the paths
abbrev pub entered : BestpathConfig → BgpPath → Option BgpPath → BgpPath
entered cfg p none = p
entered cfg p (some cur) = stronger cfg cur p

unfoldable pub group_winners : BestpathConfig → List BgpPath → Dict ℕ BgpPath → Dict ℕ BgpPath
group_winners cfg [] groups = groups
group_winners cfg (p ∷ paths) groups =
    let key = p.attrs.neighbor_as in
    group_winners cfg paths (put key (entered cfg p (get key groups)) groups)

-- How many of the paths find their group entered.
abbrev pub is_some : Option BgpPath → Bool
is_some none = false
is_some (some p) = true

unfoldable pub group_comparisons : BestpathConfig → List BgpPath → Dict ℕ BgpPath → ℕ
group_comparisons cfg [] groups = 0
group_comparisons cfg (p ∷ paths) groups =
    let key = p.attrs.neighbor_as in
    (if is_some (get key groups) then 1 else 0)
    + group_comparisons cfg paths (put key (entered cfg p (get key groups)) groups)

-- `sorted(groups.keys())`
unfoldable pub insert_key : ℕ → List ℕ → List ℕ
insert_key k [] = k ∷ []
insert_key k (j ∷ keys) = let rest = insert_key k keys in if ltb k j then k ∷ j ∷ keys else j ∷ rest

abbrev pub sorted_keys : Dict ℕ BgpPath → List ℕ
sorted_keys [] = []
sorted_keys ((k, p) ∷ groups) = insert_key k (sorted_keys groups)

abbrev pub joined : Option BgpPath → List BgpPath → List BgpPath
joined none out = out
joined (some p) out = p ∷ out

abbrev pub values_at : Dict ℕ BgpPath → List ℕ → List BgpPath
values_at groups [] = []
values_at groups (k ∷ keys) = joined (get k groups) (values_at groups keys)

-- `_med_group_winners`
abbrev pub med_group_winners : BestpathConfig → List BgpPath → List BgpPath
med_group_winners cfg eligible =
    let groups = group_winners cfg eligible [] in values_at groups (sorted_keys groups)

-- `_decisive_reason`
unfoldable pub decisive_from : BestpathConfig → BgpPath → ℕ → List BgpPath → ℕ
decisive_from cfg best latest [] = latest
decisive_from cfg best latest (p ∷ paths) =
    let step = (path_cmp cfg best p).1 in
    decisive_from cfg best
      (if same_path p best then latest else if ltb latest step then step else latest) paths

abbrev pub decisive_reason : BestpathConfig → List BgpPath → BgpPath → ℕ
decisive_reason cfg eligible best = decisive_from cfg best step_none eligible

-- `_fill_multipath`
abbrev pub multipath_limit : BestpathConfig → BgpPath → ℕ
multipath_limit cfg best = if best.peer.is_ebgp then cfg.maximum_paths else cfg.maximum_paths_ibgp

abbrev pub same_flag : Bool → Bool → Bool
same_flag true b = b
same_flag false b = not b

abbrev pub is_equal_cost : BestpathConfig → BgpPath → BgpPath → Bool
is_equal_cost cfg best p =
    let step = (path_cmp cfg best p).1 in
    same_flag p.peer.is_ebgp best.peer.is_ebgp
    && ((cfg.as_path_multipath_relax || p.attrs.as_path == best.attrs.as_path)
        && (ltb multipath_boundary step || eqb step step_none))

-- The loop, with its `break`
unfoldable pub fill : BestpathConfig → ℕ → BgpPath → List BgpPath → List BgpPath → List BgpPath
fill cfg limit best out [] = out
fill cfg limit best out (p ∷ paths) =
    let skipped = same_path p best in
    let rest =
      fill cfg limit best
        (if skipped then out else if is_equal_cost cfg best p then out ++ p ∷ [] else out) paths in
    if not skipped && leb limit (length out) then out else rest

abbrev pub several : List BgpPath → List BgpPath
several out = if ltb 1 (length out) then out else []

unfoldable pub fill_multipath : BestpathConfig → List BgpPath → BgpPath → List BgpPath
fill_multipath cfg eligible best =
    let limit = multipath_limit cfg best in
    if leb limit 1 then [] else several (fill cfg limit best (best ∷ []) eligible)

-- `_select`
abbrev pub contenders : BestpathConfig → List BgpPath → List BgpPath
contenders cfg eligible = if cfg.deterministic_med then med_group_winners cfg eligible else eligible

abbrev pub first_comparisons : BestpathConfig → List BgpPath → ℕ
first_comparisons cfg eligible =
    if cfg.deterministic_med then group_comparisons cfg eligible [] else 0

abbrev pub decide_among : BestpathConfig → ℕ → List BgpPath → List BgpPath → BestpathResult
decide_among cfg considered eligible [] = record {
  best = none;
  multipath = [];
  reason = step_none;
  considered = considered;
  comparisons = 0;
}
decide_among cfg considered eligible (w ∷ winners) =
    let best = champion cfg w winners in
    record {
      best = some best;
      multipath = fill_multipath cfg eligible best;
      reason = decisive_reason cfg eligible best;
      considered = considered;
      comparisons = first_comparisons cfg eligible + length winners + length eligible - 1;
    }

abbrev pub select_among : BestpathConfig → ℕ → List BgpPath → BestpathResult
select_among cfg considered [] = record {
  best = none;
  multipath = [];
  reason = step_none;
  considered = considered;
  comparisons = 0;
}
select_among cfg considered (p ∷ []) = record {
  best = some p;
  multipath = [];
  reason = if ltb 1 considered then step_resolved else step_none;
  considered = considered;
  comparisons = 0;
}
select_among cfg considered (p ∷ q ∷ eligible) =
    decide_among cfg considered (p ∷ q ∷ eligible) (contenders cfg (p ∷ q ∷ eligible))

unfoldable pub select : BestpathConfig → List BgpPath → BestpathResult
select cfg paths = select_among cfg (length paths) (resolved_of paths)
