-- ===== src/Bgp/Bestpath/DestMap.antt =====
-- packets/routing/rtengine/plugins/bgp/bestpath.pyx: a `BgpDest` as a map from peers and path identifiers
-- to paths.
use packets.Base.{
  ℕ, ◌&&◌, Option, none, some, List, [], ◌∷◌, ◌≡◌, refl, sym, ◌∙◌, if◌then◌else◌, eqb, ltb,
  Bool-cases, inl, inr,
}
use packets.Rib.Route.{Prefix}
use packets.Bgp.Bestpath.Compare.{BgpPath, PeerRef, BestpathConfig}
use packets.Bgp.Bestpath.Dest.{
  BgpDest, new, find, find_in, replaced, add, settle_add, taken, settle_remove, remove, kept,
  remove_peer, reselect,
}
use packets.Bgp.Bestpath.DestPaths.{
  OneEach, with_path, find-added, OneEach-added, without, find-left, OneEach-left, find-kept,
  OneEach-kept, kept-none, what_of, replaced-find, taken-find,
}

pub data DestOp : Type 0 where
  add_path : BgpPath → DestOp
  remove_path : PeerRef → ℕ → DestOp
  drop_peer : PeerRef → DestOp
  choose : BestpathConfig → DestOp

abbrev pub apply : DestOp → BgpDest → BgpDest
apply (add_path p) d = (add d p).0
apply (remove_path peer path_id) d = (remove d peer path_id).0
apply (drop_peer peer) d = (remove_peer d peer).0
apply (choose cfg) d = (reselect d cfg).0

abbrev pub run : List DestOp → BgpDest → BgpDest
run [] d = d
run (op ∷ ops) d = run ops (apply op d)

-- The map, and how the calls change it.
abbrev pub PathMap : Type 0
PathMap = ℕ → ℕ → Option BgpPath

abbrev pub replay_op : DestOp → PathMap → PathMap
replay_op (add_path p) f h i = if eqb p.peer.handle h && eqb p.path_id i then some p else f h i
replay_op (remove_path peer path_id) f h i =
    if eqb peer.handle h && eqb path_id i then none else f h i
replay_op (drop_peer peer) f h i = if eqb peer.handle h then none else f h i
replay_op (choose cfg) f h i = f h i

abbrev pub replay : List DestOp → PathMap → PathMap
replay [] f = f
replay (op ∷ ops) f = replay ops (replay_op op f)

paths-settle_add :
    (d : BgpDest) (path : BgpPath) (o : Option (BgpPath × List BgpPath))
    → (settle_add d path o).0.paths ≡ with_path path d.paths o
paths-settle_add d path none = refl
paths-settle_add d path (some (old, l)) = refl

paths-settle_remove :
    (d : BgpDest) (o : Option (BgpPath × List BgpPath))
    → (settle_remove d o).0.paths ≡ without d.paths o
paths-settle_remove d none = refl
paths-settle_remove d (some (p, l)) = refl

paths-remove_peer :
    (d : BgpDest) (peer : PeerRef) → (remove_peer d peer).0.paths ≡ (kept peer.handle d.paths).0
paths-remove_peer d peer = elim (Bool-cases (ltb 0 (kept peer.handle d.paths).1)) [
  | inl e ↦ rw e refl
  | inr e ↦ rw e (sym (kept-none peer.handle d.paths e))
]

-- A destination that holds one path of each key, and reads as the map.
abbrev pub Reads : BgpDest → PathMap → Type 0
Reads d f = OneEach d.paths × ((h i : ℕ) → find_in h i d.paths ≡ f h i)

apply-Reads :
    (op : DestOp) (d : BgpDest) (f : PathMap) → Reads d f → Reads (apply op d) (replay_op op f)
apply-Reads (add_path p) d f (one, reads) =
    rw (paths-settle_add d p (replaced p d.paths))
      (OneEach-added p d.paths one, λ h i. find-added h i p d.paths ∙ rw (reads h i) refl)
apply-Reads (remove_path peer path_id) d f (one, reads) =
    rw (paths-settle_remove d (taken peer.handle path_id d.paths)) (
      OneEach-left peer.handle path_id d.paths one,
      λ h i. find-left h i peer.handle path_id d.paths one ∙ rw (reads h i) refl,
    )
apply-Reads (drop_peer peer) d f (one, reads) = rw (paths-remove_peer d peer) (
  OneEach-kept peer.handle d.paths one,
  λ h i. find-kept h i peer.handle d.paths ∙ rw (reads h i) refl,
)
apply-Reads (choose cfg) d f h = h

run-Reads :
    (ops : List DestOp) (d : BgpDest) (f : PathMap) → Reads d f → Reads (run ops d) (replay ops f)
run-Reads [] d f h = h
run-Reads (op ∷ ops) d f h = run-Reads ops (apply op d) (replay_op op f) (apply-Reads op d f h)

-- After any calls on a fresh destination it holds at most one path of each peer and identifier, and
-- `find` returns the last one added that was not withdrawn since, by itself or with its peer.
pub find-run :
    (prefix : Prefix) (ops : List DestOp) → Reads (run ops (new prefix)) (replay ops (λ h i. none))
unfolding find_in
find-run prefix ops = run-Reads ops (new prefix) (λ h i. none) (tt, λ h i. refl)

second-settle_add :
    (d : BgpDest) (path : BgpPath) (o : Option (BgpPath × List BgpPath))
    → (settle_add d path o).1 ≡ what_of o
second-settle_add d path none = refl
second-settle_add d path (some (old, l)) = refl

second-settle_remove :
    (d : BgpDest) (o : Option (BgpPath × List BgpPath)) → (settle_remove d o).1 ≡ what_of o
second-settle_remove d none = refl
second-settle_remove d (some (p, l)) = refl

-- `add` and `remove` return the path that leaves the destination: the one that `find` returned before.
pub add-returns : (d : BgpDest) (path : BgpPath) → (add d path).1 ≡ find d path.peer path.path_id
add-returns d path = second-settle_add d path (replaced path d.paths) ∙ replaced-find path d.paths

pub remove-returns :
    (d : BgpDest) (peer : PeerRef) (path_id : ℕ) → (remove d peer path_id).1 ≡ find d peer path_id
remove-returns d peer path_id =
    second-settle_remove d (taken peer.handle path_id d.paths)
    ∙ taken-find peer.handle path_id d.paths
