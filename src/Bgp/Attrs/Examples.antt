-- ===== src/Bgp/Attrs/Examples.antt =====
-- packets/routing/rtengine/plugins/bgp/attrs.pyx: a set that is claimed twice and released.
use packets.Base.{ℕ, false, none, some, List, [], ◌∷◌, ◌≡◌, refl}
use packets.Base.Dict.{get, put, remove}
use packets.Bgp.Attrs.Content.{Content, attrs_cmp}
use packets.Bgp.Attrs.Ordered.{content_key}
use packets.Bgp.Attrs.Runs.{Call, claim, give_back, Paired, run, nobody_yet, intern_and_release}

abbrev content : ℕ → Content
content origin = record {
  origin = origin;
  as_path = 2 ∷ 1 ∷ 0 ∷ 0 ∷ 253 ∷ 233 ∷ [];
  nexthop = 10 ∷ 0 ∷ 0 ∷ 1 ∷ [];
  nexthop_local = [];
  med = some 5;
  local_pref = none;
  atomic_aggregate = false;
  originator_id = none;
  communities = [];
  ext_communities = [];
  large_communities = [];
  cluster_list = [];
  aggregator = [];
  unknown = [];
}

-- Two equal sets and another, each given back.
abbrev calls : List (Call Content)
calls =
    claim (1, content 0)
    ∷ claim (2, content 0)
    ∷ claim (3, content 1)
    ∷ give_back 2
    ∷ give_back 0
    ∷ []

shared_test :
    ((run calls nobody_yet).claims ≡ (1, content 0) ∷ [])
    × ((run calls nobody_yet).table.sets ≡ (content 0, (1, 1)) ∷ [])
unfolding get put remove attrs_cmp
shared_test = (refl, refl)

intern_and_release_example : Paired (run calls nobody_yet)
intern_and_release_example = intern_and_release calls
