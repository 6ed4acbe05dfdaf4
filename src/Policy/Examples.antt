-- ===== src/Policy/Examples.antt =====
-- packets/routing/rtengine/policy/routemap.py: a map that rejects what carries NO_EXPORT and then permits.
use packets.Base.{arith, ℕ, String, Bool, true, false, none, some, List, [], ◌∷◌, ◌≡◌, refl}
use packets.Rib.Route.{Prefix}
use packets.Policy.Conditions.{PathAttrs, community_match, metric_match, has_aligned, aligned_from}
use packets.Policy.Aligned.{packed_of, is_among, has_aligned-packed}
use packets.Policy.RouteMap.{deny, permit, RouteMapClause, RouteMap, new, apply, decided}
use packets.Policy.Decision.{IsDecision, apply-IsDecision}
use packets.Policy.Calls.{MapCall, add_one, remove_one, apply_to, Reads, replay, run, run-new-Reads}

-- Without patterns.
abbrev no_search : String → String → Bool
no_search pattern text = false

abbrev no_export : List ℕ
no_export = 255 ∷ 255 ∷ 255 ∷ 1 ∷ []

abbrev rejecting : RouteMapClause String ℕ
rejecting = record {
  seq = 10;
  action = deny;
  match = community_match (no_export ∷ []) false ∷ [];
  set = 0;
  weight = none;
  hits = 0;
}

abbrev permitting : RouteMapClause String ℕ
permitting = record {
  seq = 20;
  action = permit;
  match = metric_match 5 ∷ [];
  set = 7;
  weight = some 100;
  hits = 0;
}

abbrev route : List ℕ → PathAttrs
route communities = record {
  origin = 0;
  as_path_str = "65001";
  nexthop = 10 ∷ 0 ∷ 0 ∷ 1 ∷ [];
  med = some 5;
  local_pref = none;
  communities = communities;
  large_communities = [];
}

abbrev prefix : Prefix
prefix = record { afi = 1; bits = []; text = "0.0.0.0/0"; plen = 0 }

-- NO_EXPORT across two communities is not among them.
abbrev straddling : List ℕ
straddling = 0 ∷ 0 ∷ 255 ∷ 255 ∷ 255 ∷ 1 ∷ 0 ∷ 0 ∷ []

aligned_test :
    (has_aligned straddling no_export 4 ≡ false)
    × (has_aligned (0 ∷ 0 ∷ 0 ∷ 0 ∷ no_export) no_export 4 ≡ true)
unfolding has_aligned aligned_from
aligned_test = (refl, refl)

abbrev two : List (List ℕ)
two = (0 ∷ 0 ∷ 255 ∷ 255 ∷ []) ∷ (255 ∷ 1 ∷ 0 ∷ 0 ∷ []) ∷ []

has_aligned-packed_example : has_aligned (packed_of two) no_export 4 ≡ is_among no_export two
has_aligned-packed_example = has_aligned-packed 4 two no_export (omega arith) (refl, (refl, tt))

abbrev calls : List (MapCall String ℕ)
calls =
    add_one permitting
    ∷ add_one rejecting
    ∷ apply_to prefix (some (route straddling))
    ∷ remove_one 20
    ∷ []

abbrev policy : RouteMap String ℕ
policy = record (new "export" none) { clauses = rejecting ∷ permitting ∷ [] }

apply_test :
    ((apply no_search policy prefix (some (route straddling))).1.sets ≡ some 7)
    × ((apply no_search policy prefix (some (route no_export))).1.clause ≡ some 10)
    × ((apply no_search policy prefix none).1.matched ≡ false)
unfolding decided has_aligned aligned_from
apply_test = (refl, refl, refl)

apply-IsDecision_example :
    IsDecision no_search none prefix
      (some (route straddling))
      (rejecting ∷ permitting ∷ [])
      (apply no_search policy prefix (some (route straddling))).1
apply-IsDecision_example = apply-IsDecision no_search policy prefix (some (route straddling))

run-new-Reads_example : Reads (run no_search calls (new "export" none)) (replay calls (λ k. none))
run-new-Reads_example = run-new-Reads no_search "export" none calls
