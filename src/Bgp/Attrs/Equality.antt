-- ===== src/Bgp/Attrs/Equality.antt =====
-- packets/routing/rtengine/plugins/bgp/attrs.pyx: `attrs_cmp` tells apart what differs.
use packets.Base.{ℕ, Bool, true, false, Option, none, some, [], ◌∷◌, ◌≡◌, refl, ap, ◌∙◌, arith}
use packets.Rib.Route.{Bytes}
use packets.Rib.RouteTable.Select.{Sign, before, tie, after}
use packets.Bgp.Bestpath.Order.{smaller, or_else, by_bytes}
use packets.Bgp.Attrs.Content.{Content, attrs_cmp, cmp_bytes, cmp_if_present, presence}

both_tie : (s t : Sign) → or_else s t ≡ tie → (s ≡ tie) × (t ≡ tie)
both_tie before t e = absurd (ground arith)
both_tie tie t e = (refl, e)
both_tie after t e = absurd (ground arith)

pub tie-eq : (x y : ℕ) → smaller x y ≡ tie → x ≡ y
tie-eq x y e = ground arith

by_bytes-eq : (x y : Bytes) → by_bytes x y ≡ tie → x ≡ y
by_bytes-eq [] [] e = refl
by_bytes-eq [] (y ∷ ys) e = absurd (ground arith)
by_bytes-eq (x ∷ xs) [] e = absurd (ground arith)
by_bytes-eq (x ∷ xs) (y ∷ ys) e =
    let (first, rest) = both_tie (smaller x y) (by_bytes xs ys) e in
    ap (λ z. z ∷ xs) (tie-eq x y first) ∙ ap (λ l. y ∷ l) (by_bytes-eq xs ys rest)

cmp_bytes-eq : (x y : Bytes) → cmp_bytes x y ≡ tie → x ≡ y
cmp_bytes-eq x y e = by_bytes-eq x y (both_tie _ (by_bytes x y) e).1

-- The presence bits tell which values are present.
abbrev pub is_present : Option ℕ → Bool
is_present none = false
is_present (some n) = true

pub present-eq :
    (a b : Content)
    → presence a ≡ presence b
    → (is_present a.med ≡ is_present b.med)
      × (is_present a.local_pref ≡ is_present b.local_pref)
      × (a.atomic_aggregate ≡ b.atomic_aggregate)
      × (is_present a.originator_id ≡ is_present b.originator_id)
present-eq a b e = ground arith

cmp_if_present-eq :
    (m n : Option ℕ) → is_present m ≡ is_present n → cmp_if_present m n ≡ tie → m ≡ n
cmp_if_present-eq none none p e = refl
cmp_if_present-eq none (some n) p e = absurd (ground arith)
cmp_if_present-eq (some m) none p e = absurd (ground arith)
cmp_if_present-eq (some m) (some n) p e = ap some (tie-eq m n e)

same_fields :
    (a b : Content)
    → a.origin ≡ b.origin
    → a.as_path ≡ b.as_path
    → a.nexthop ≡ b.nexthop
    → a.nexthop_local ≡ b.nexthop_local
    → a.med ≡ b.med
    → a.local_pref ≡ b.local_pref
    → a.atomic_aggregate ≡ b.atomic_aggregate
    → a.originator_id ≡ b.originator_id
    → a.communities ≡ b.communities
    → a.ext_communities ≡ b.ext_communities
    → a.large_communities ≡ b.large_communities
    → a.cluster_list ≡ b.cluster_list
    → a.aggregator ≡ b.aggregator
    → a.unknown ≡ b.unknown
    → a ≡ b
same_fields a b f0 f1 f2 f3 f4 f5 f6 f7 f8 f9 f10 f11 f12 f13 = cc

-- Only equal sets compare as equal.
pub attrs_cmp-eq : (a b : Content) → attrs_cmp a b ≡ tie → a ≡ b
unfolding attrs_cmp
attrs_cmp-eq a b e =
    let (origin, e1) = both_tie (smaller a.origin b.origin) _ e in
    let (bits, e2) = both_tie (smaller (presence a) (presence b)) _ e1 in
    let (as_path, e3) = both_tie (cmp_bytes a.as_path b.as_path) _ e2 in
    let (nexthop, e4) = both_tie (cmp_bytes a.nexthop b.nexthop) _ e3 in
    let (nexthop_local, e5) = both_tie (cmp_bytes a.nexthop_local b.nexthop_local) _ e4 in
    let (med, e6) = both_tie (cmp_if_present a.med b.med) _ e5 in
    let (local_pref, e7) = both_tie (cmp_if_present a.local_pref b.local_pref) _ e6 in
    let (communities, e8) = both_tie (cmp_bytes a.communities b.communities) _ e7 in
    let (ext_communities, e9) = both_tie (cmp_bytes a.ext_communities b.ext_communities) _ e8 in
    let (large_communities, e10) =
      both_tie (cmp_bytes a.large_communities b.large_communities) _ e9 in
    let (originator_id, e11) = both_tie (cmp_if_present a.originator_id b.originator_id) _ e10 in
    let (cluster_list, e12) = both_tie (cmp_bytes a.cluster_list b.cluster_list) _ e11 in
    let (aggregator, unknown) =
      both_tie (cmp_bytes a.aggregator b.aggregator) (cmp_bytes a.unknown b.unknown) e12 in
    let (p1, p2, p3, p4) = present-eq a b (tie-eq _ _ bits) in
    same_fields a b (tie-eq _ _ origin) (cmp_bytes-eq _ _ as_path) (cmp_bytes-eq _ _ nexthop)
      (cmp_bytes-eq _ _ nexthop_local) (cmp_if_present-eq a.med b.med p1 med)
      (cmp_if_present-eq a.local_pref b.local_pref p2 local_pref) p3
      (cmp_if_present-eq a.originator_id b.originator_id p4 originator_id)
      (cmp_bytes-eq _ _ communities) (cmp_bytes-eq _ _ ext_communities)
      (cmp_bytes-eq _ _ large_communities) (cmp_bytes-eq _ _ cluster_list)
      (cmp_bytes-eq _ _ aggregator) (cmp_bytes-eq _ _ unknown)
