-- ===== src/Bgp/Attrs/Ordered.antt =====
-- packets/routing/rtengine/plugins/bgp/attrs.pyx: `attrs_cmp` is a total order.
use packets.Base.{
  ℕ, Bool, true, false, Option, none, some, length, ◌≡◌, ◌↔◌, refl, sym, ap, ◌∙◌, Key, arith,
}
use mathlib.Core.Path.{subst}
use packets.Rib.Route.{Bytes}
use packets.Rib.RouteTable.Select.{Sign, before, tie, after}
use packets.Bgp.Bestpath.Order.{
  flip, holds, smaller, or_else, by_bytes, flip_is_self, IsOrder, then-IsOrder, pull-IsOrder,
  smaller-IsOrder, bytes-IsOrder,
}
use packets.Bgp.Attrs.Content.{Content, attrs_cmp, cmp_bytes, cmp_if_present, presence}
use packets.Bgp.Attrs.Equality.{is_present, present-eq, tie-eq, attrs_cmp-eq}

-- An absent value counts as 0.
abbrev value_of : Option ℕ → ℕ
value_of none = 0
value_of (some n) = n

cmp_if_present-value :
    (m n : Option ℕ)
    → is_present m ≡ is_present n
    → cmp_if_present m n ≡ smaller (value_of m) (value_of n)
cmp_if_present-value none none p = refl
cmp_if_present-value none (some n) p = absurd (ground arith)
cmp_if_present-value (some m) none p = absurd (ground arith)
cmp_if_present-value (some m) (some n) p = refl

after_tie : (s t u : Sign) → (s ≡ tie → t ≡ u) → or_else s t ≡ or_else s u
after_tie before t u f = refl
after_tie tie t u f = f refl
after_tie after t u f = refl

-- The criteria after the presence bits, with the values compared in any case.
abbrev rest_cmp : (Option ℕ → Option ℕ → Sign) → Content → Content → Sign
rest_cmp values a b = or_else (cmp_bytes a.as_path b.as_path) (
    or_else (cmp_bytes a.nexthop b.nexthop) (
      or_else (cmp_bytes a.nexthop_local b.nexthop_local) (
        or_else (values a.med b.med) (
          or_else (values a.local_pref b.local_pref) (
            or_else (cmp_bytes a.communities b.communities) (
              or_else (cmp_bytes a.ext_communities b.ext_communities) (
                or_else (cmp_bytes a.large_communities b.large_communities) (
                  or_else (values a.originator_id b.originator_id) (
                    or_else (cmp_bytes a.cluster_list b.cluster_list) (
                      or_else (cmp_bytes a.aggregator b.aggregator)
                        (cmp_bytes a.unknown b.unknown)))))))))))

abbrev by_value : Option ℕ → Option ℕ → Sign
by_value m n = smaller (value_of m) (value_of n)

abbrev ordered : Content → Content → Sign
ordered a b =
    or_else (smaller a.origin b.origin)
      (or_else (smaller (presence a) (presence b)) (rest_cmp by_value a b))

rest_cmp-value :
    (a b : Content) → presence a ≡ presence b → rest_cmp cmp_if_present a b ≡ rest_cmp by_value a b
rest_cmp-value a b e =
    let (p1, p2, p3, p4) = present-eq a b e in
    rw (cmp_if_present-value a.med b.med p1) (
      rw (cmp_if_present-value a.local_pref b.local_pref p2)
        (rw (cmp_if_present-value a.originator_id b.originator_id p4) refl))

attrs_cmp-ordered : (a b : Content) → attrs_cmp a b ≡ ordered a b
unfolding attrs_cmp
attrs_cmp-ordered a b = ap (or_else (smaller a.origin b.origin)) (
    after_tie (smaller (presence a) (presence b)) (rest_cmp cmp_if_present a b)
      (rest_cmp by_value a b) (λ e. rest_cmp-value a b (tie-eq _ _ e)))

cmp_bytes-IsOrder : IsOrder cmp_bytes
cmp_bytes-IsOrder =
    then-IsOrder (λ x y. smaller (length x) (length y)) by_bytes
      (pull-IsOrder (λ x. length x) smaller smaller-IsOrder) bytes-IsOrder

by :
    (k : Content → ℕ) (rest : Content → Content → Sign)
    → IsOrder rest
    → IsOrder (λ a b. or_else (smaller (k a) (k b)) (rest a b))
by k rest o =
    then-IsOrder (λ a b. smaller (k a) (k b)) rest (pull-IsOrder k smaller smaller-IsOrder) o

by_octets :
    (k : Content → Bytes) (rest : Content → Content → Sign)
    → IsOrder rest
    → IsOrder (λ a b. or_else (cmp_bytes (k a) (k b)) (rest a b))
by_octets k rest o =
    then-IsOrder (λ a b. cmp_bytes (k a) (k b)) rest (pull-IsOrder k cmp_bytes cmp_bytes-IsOrder) o

ordered-IsOrder : IsOrder ordered
ordered-IsOrder =
    by (λ a. a.origin) _
      (by presence _ (
        by_octets (λ a. a.as_path) _
          (by_octets (λ a. a.nexthop) _
            (by_octets (λ a. a.nexthop_local) _
              (by (λ a. value_of a.med) _
                (by (λ a. value_of a.local_pref) _
                  (by_octets (λ a. a.communities) _
                    (by_octets (λ a. a.ext_communities) _
                      (by_octets (λ a. a.large_communities) _
                        (by (λ a. value_of a.originator_id) _
                          (by_octets (λ a. a.cluster_list) _
                            (by_octets (λ a. a.aggregator) _
                              (pull-IsOrder (λ a. a.unknown) cmp_bytes
                                cmp_bytes-IsOrder)))))))))))))

-- An order that agrees with another.
IsOrder-agree :
    (c d : Content → Content → Sign) → ((a b : Content) → d a b ≡ c a b) → IsOrder c → IsOrder d
IsOrder-agree c d same o = record {
  flips = λ a b. same b a ∙ o.flips a b ∙ ap flip (sym (same a b));
  trans = λ x y z h k.
      ap holds (same x z)
      ∙ o.trans x y z (ap holds (sym (same x y)) ∙ h) (ap holds (sym (same y z)) ∙ k);
}

total : IsOrder attrs_cmp
total = IsOrder-agree ordered attrs_cmp attrs_cmp-ordered ordered-IsOrder

-- `attrs_cmp` is a total order on what attribute sets hold, and only equal ones compare as equal.
pub attrs_cmp-IsOrder : IsOrder attrs_cmp × ((a b : Content) → (attrs_cmp a b ≡ tie) ↔ (a ≡ b))
attrs_cmp-IsOrder = (
  total,
  λ a b. (
    attrs_cmp-eq a b,
    λ e. subst (λ x. attrs_cmp a x ≡ tie) e (flip_is_self (attrs_cmp a a) (total.flips a a)),
  ),
)

-- `==` on attribute sets
abbrev is_tie : Sign → Bool
is_tie before = false
is_tie tie = true
is_tie after = false

abbrev pub equal_contents : Content → Content → Bool
equal_contents a b = is_tie (attrs_cmp a b)

is_tie_iff : (s : Sign) → (is_tie s ≡ true) ↔ (s ≡ tie)
is_tie_iff before = ground arith
is_tie_iff tie = ground arith
is_tie_iff after = ground arith

pub equal_contents_iff : (a b : Content) → (equal_contents a b ≡ true) ↔ (a ≡ b)
equal_contents_iff a b = (
  λ e. (attrs_cmp-IsOrder.1 a b).0 ((is_tie_iff (attrs_cmp a b)).0 e),
  λ e. (is_tie_iff (attrs_cmp a b)).1 ((attrs_cmp-IsOrder.1 a b).1 e),
)

instance abbrev pub content_key : Key Content
content_key = record { same = equal_contents; same_iff = equal_contents_iff }
