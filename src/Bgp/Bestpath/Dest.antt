-- ===== src/Bgp/Bestpath/Dest.antt =====
-- packets/routing/rtengine/plugins/bgp/bestpath.pyx: `BgpDest`, the paths of one prefix.
use packets.Base.{
  ℕ, suc, Bool, false, ◌&&◌, Option, none, some, List, [], ◌∷◌, ◌++◌, if◌then◌else◌, eqb, ltb,
}
use packets.Rib.Route.{Prefix}
use packets.Bgp.Bestpath.Compare.{BgpPath, PeerRef, BestpathConfig, step_none}
use packets.Bgp.Bestpath.Select.{BestpathResult, select}

pub record BgpDest : Type 0 where
  pub prefix : Prefix
  pub paths : List BgpPath
  pub best : Option BgpPath
  pub multipath : List BgpPath
  pub reason : ℕ
  pub version : ℕ
  pub queued : Bool

abbrev pub new : Prefix → BgpDest
new prefix = record {
  prefix = prefix;
  paths = [];
  best = none;
  multipath = [];
  reason = step_none;
  version = 0;
  queued = false;
}

-- `p.peer is peer and p.path_id == path_id`, of a peer that a handle stands for
abbrev pub is_from : ℕ → ℕ → BgpPath → Bool
is_from peer path_id p = eqb p.peer.handle peer && eqb p.path_id path_id

unfoldable pub find_in : ℕ → ℕ → List BgpPath → Option BgpPath
find_in peer path_id [] = none
find_in peer path_id (p ∷ paths) =
    if is_from peer path_id p then some p else find_in peer path_id paths

abbrev pub find : BgpDest → PeerRef → ℕ → Option BgpPath
find d peer path_id = find_in peer.handle path_id d.paths

abbrev pub past : BgpPath → Option (BgpPath × List BgpPath) → Option (BgpPath × List BgpPath)
past p none = none
past p (some (old, paths)) = some (old, p ∷ paths)

-- The loop of `add`: the path that is replaced, and the list with the new one in its place.
unfoldable pub replaced : BgpPath → List BgpPath → Option (BgpPath × List BgpPath)
replaced path [] = none
replaced path (old ∷ paths) =
    let rest = replaced path paths in
    if is_from path.peer.handle path.path_id old then some (old, path ∷ paths) else past old rest

abbrev pub settle_add :
    BgpDest → BgpPath → Option (BgpPath × List BgpPath) → BgpDest × Option BgpPath
settle_add d path none = (record d { paths = d.paths ++ path ∷ [] }, none)
settle_add d path (some (old, paths)) = (record d { paths = paths }, some old)

abbrev pub add : BgpDest → BgpPath → BgpDest × Option BgpPath
add d path = settle_add d path (replaced path d.paths)

-- The loop of `remove`
unfoldable pub taken : ℕ → ℕ → List BgpPath → Option (BgpPath × List BgpPath)
taken peer path_id [] = none
taken peer path_id (p ∷ paths) =
    let rest = taken peer path_id paths in
    if is_from peer path_id p then some (p, paths) else past p rest

abbrev pub settle_remove : BgpDest → Option (BgpPath × List BgpPath) → BgpDest × Option BgpPath
settle_remove d none = (d, none)
settle_remove d (some (p, paths)) = (record d { paths = paths }, some p)

abbrev pub remove : BgpDest → PeerRef → ℕ → BgpDest × Option BgpPath
remove d peer path_id = settle_remove d (taken peer.handle path_id d.paths)

-- The loop of `remove_peer`: the paths that are kept, and how many are not.
unfoldable pub kept : ℕ → List BgpPath → List BgpPath × ℕ
kept peer [] = ([], 0)
kept peer (p ∷ paths) =
    let (keep, removed) = kept peer paths in
    if eqb p.peer.handle peer then (keep, suc removed) else (p ∷ keep, removed)

abbrev pub remove_peer : BgpDest → PeerRef → BgpDest × ℕ
remove_peer d peer =
    let (keep, removed) = kept peer.handle d.paths in
    (if ltb 0 removed then record d { paths = keep } else d, removed)

abbrev pub reselect : BgpDest → BestpathConfig → BgpDest × BestpathResult
reselect d cfg =
    let res = select cfg d.paths in
    (record d { best = res.best; multipath = res.multipath; reason = res.reason }, res)
