-- ===== src/Policy/Conditions.antt =====
-- packets/routing/rtengine/policy/routemap.py: the conditions of a clause.
use packets.Base.{
  ℕ, zero, suc, String, Bool, true, false, not, ◌&&◌, ◌||◌, Option, none, some, List, [], ◌∷◌,
  length, if◌then◌else◌, eqb, leb, ◌==◌, nat_key, list_key,
}
use packets.Rib.Route.{Prefix, Bytes}

-- What a route map reads of a path. An attribute that a flag declares absent is `none`.
pub record PathAttrs : Type 0 where
  pub origin : ℕ
  pub as_path_str : String
  pub nexthop : Bytes
  pub med : Option ℕ
  pub local_pref : Option ℕ
  pub communities : Bytes
  pub large_communities : Bytes

-- The lists that a clause names, and a compiled pattern: `permits` of a list and `matches` of a pattern.
pub record Resolver : Type 0 where
  pub prefix_list : String → ℕ → Option (Prefix → Bool)
  pub as_path_list : String → Option (String → Bool)

-- `target in packed`, for bytes
abbrev pub starts_with : Bytes → Bytes → Bool
starts_with [] packed = true
starts_with (x ∷ target) [] = false
starts_with (x ∷ target) (y ∷ packed) = eqb x y && starts_with target packed

abbrev pub contains : Bytes → Bytes → Bool
contains target [] = starts_with target []
contains target (y ∷ packed) = starts_with target (y ∷ packed) || contains target packed

abbrev pub take : ℕ → Bytes → Bytes
take zero packed = []
take (suc n) [] = []
take (suc n) (y ∷ packed) = y ∷ take n packed

abbrev pub drop : ℕ → Bytes → Bytes
drop zero packed = packed
drop (suc n) [] = []
drop (suc n) (y ∷ packed) = drop n packed

-- The loop of `_has_aligned` over the offsets, with a round for each byte: it ends where fewer bytes than
-- a stride are left.
unfoldable pub aligned_from : ℕ → ℕ → Bytes → Bytes → Bool
aligned_from zero stride packed target = false
aligned_from (suc rounds) stride packed target =
    let rest = aligned_from rounds stride (drop stride packed) target in
    if leb stride (length packed) then take stride packed == target || rest else false

abbrev pub is_empty : Bytes → Bool
is_empty [] = true
is_empty (y ∷ packed) = false

unfoldable pub has_aligned : Bytes → Bytes → ℕ → Bool
has_aligned packed target stride =
    if is_empty packed || not (contains target packed)
    then false
    else aligned_from (length packed) stride packed target

abbrev all_aligned : Bytes → ℕ → List Bytes → Bool
all_aligned packed stride [] = true
all_aligned packed stride (target ∷ targets) =
    has_aligned packed target stride && all_aligned packed stride targets

abbrev join : List Bytes → Bytes
join [] = []
join (target ∷ targets) = append target (join targets)
  where
    append : Bytes → Bytes → Bytes
    append [] ys = ys
    append (x ∷ xs) ys = x ∷ append xs ys

abbrev carries : Bytes → ℕ → List Bytes → Bool → Bool
carries packed stride targets true = packed == join targets
carries packed stride targets false =
    if is_empty packed then false else all_aligned packed stride targets

-- `Pattern` is a compiled regular expression.
pub data Match (Pattern : Type 0) : Type 0 where
  origin_match : ℕ → Match Pattern
  metric_match : ℕ → Match Pattern
  local_pref_match : ℕ → Match Pattern
  next_hop_match : Bytes → Match Pattern
  prefix_list_match : ℕ → String → Match Pattern
  as_path_regex_match : List Pattern → Match Pattern
  as_path_list_match : String → Match Pattern
  community_match : List Bytes → Bool → Match Pattern
  large_community_match : List Bytes → Bool → Match Pattern

abbrev is_value : Option ℕ → ℕ → Bool
is_value none n = false
is_value (some m) n = eqb m n

abbrev permitted : {A : Type 0} → Option (A → Bool) → A → Bool
permitted none x = false
permitted (some permits) x = permits x

module _ {Pattern : Type 0} (search : Pattern → String → Bool) (resolver : Option Resolver) where
  abbrev any_matches : List Pattern → String → Bool
  any_matches [] text = false
  any_matches (pattern ∷ patterns) text = search pattern text || any_matches patterns text

  abbrev in_prefix_list : Option Resolver → ℕ → String → Prefix → Bool
  in_prefix_list none afi name prefix = false
  in_prefix_list (some r) afi name prefix = permitted (r.prefix_list name afi) prefix

  abbrev in_as_path_list : Option Resolver → String → String → Bool
  in_as_path_list none name text = false
  in_as_path_list (some r) name text = permitted (r.as_path_list name) text

  -- `matches` of the conditions that need path attributes
  abbrev holds_for : Match Pattern → PathAttrs → Bool
  holds_for (origin_match origin) attrs = eqb attrs.origin origin
  holds_for (metric_match metric) attrs = is_value attrs.med metric
  holds_for (local_pref_match value) attrs = is_value attrs.local_pref value
  holds_for (next_hop_match nexthop) attrs = attrs.nexthop == nexthop
  holds_for (prefix_list_match afi name) attrs = false
  holds_for (as_path_regex_match patterns) attrs = any_matches patterns attrs.as_path_str
  holds_for (as_path_list_match name) attrs = in_as_path_list resolver name attrs.as_path_str
  holds_for (community_match targets exact) attrs = carries attrs.communities 4 targets exact
  holds_for (large_community_match targets exact) attrs =
      carries attrs.large_communities 12 targets exact

  abbrev with_attrs : Match Pattern → Option PathAttrs → Bool
  with_attrs m none = false
  with_attrs m (some attrs) = holds_for m attrs

  -- `matches`
  abbrev pub matches : Match Pattern → Prefix → Option PathAttrs → Bool
  matches (prefix_list_match afi name) prefix attrs =
      if eqb prefix.afi afi then in_prefix_list resolver afi name prefix else false
  matches m prefix attrs = with_attrs m attrs
