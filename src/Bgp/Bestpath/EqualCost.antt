-- ===== src/Bgp/Bestpath/EqualCost.antt =====
-- packets/routing/rtengine/plugins/bgp/bestpath.pyx: what a step after the boundary of the multipath set
-- says of two paths.
use packets.Base.{
  ℕ, Bool, true, false, not, ◌&&◌, ◌||◌, ◌≡◌, refl, sym, ap, eqb, ltb, nat_key, list_key, arith,
}
use packets.Rib.RouteTable.Select.{Sign, before, tie, after}
use packets.Bgp.Bestpath.Order.{smaller}
use packets.Bgp.Bestpath.Compare.{
  BgpPath, BestpathConfig, path_cmp, ask, ask_if, local_pref_of, med_of, multipath_boundary,
  step_none,
}
use packets.Bgp.Bestpath.Select.{same_flag}

-- What two paths of a multipath set have in common.
pub record EqualCost (cfg : BestpathConfig) (a b : BgpPath) : Type 0 where
  pub weight : a.weight ≡ b.weight
  pub local_pref : local_pref_of cfg a ≡ local_pref_of cfg b
  pub source : a.source ≡ b.source
  pub as_path_len : cfg.as_path_ignore ≡ false → a.attrs.as_path_len ≡ b.attrs.as_path_len
  pub origin : a.attrs.origin ≡ b.attrs.origin
  pub med :
      (cfg.always_compare_med || eqb a.attrs.neighbor_as b.attrs.neighbor_as) ≡ true
      → med_of cfg a ≡ med_of cfg b
  pub is_ebgp : a.peer.is_ebgp ≡ b.peer.is_ebgp
  pub igp_metric : a.igp_metric ≡ b.igp_metric
  pub as_path : cfg.as_path_multipath_relax ≡ false → a.attrs.as_path ≡ b.attrs.as_path

-- A step after the boundary, or none.
abbrev is_beyond : ℕ → Bool
is_beyond step = ltb multipath_boundary step || eqb step step_none

beyond-ask :
    (s : Sign) (step : ℕ) (rest : Sign × ℕ)
    → is_beyond step ≡ false
    → is_beyond (ask s step rest).1 ≡ true
    → (s ≡ tie) × (is_beyond rest.1 ≡ true)
unfolding ask
beyond-ask before step rest e h = absurd (ground arith)
beyond-ask tie step rest e h = (refl, h)
beyond-ask after step rest e h = absurd (ground arith)

beyond-ask_if :
    (b : Bool) (s : Sign) (step : ℕ) (rest : Sign × ℕ)
    → is_beyond step ≡ false
    → is_beyond (ask_if b s step rest).1 ≡ true
    → (b ≡ true → s ≡ tie) × (is_beyond rest.1 ≡ true)
unfolding ask_if
beyond-ask_if true s step rest e h = let (t, r) = beyond-ask s step rest e h in ((λ x. t), r)
beyond-ask_if false s step rest e h = ((λ x. absurd (ground arith)), h)

tie-eq : (x y : ℕ) → smaller x y ≡ tie → x ≡ y
tie-eq x y e = ground arith

pub both_true : (a b : Bool) → (a && b) ≡ true → (a ≡ true) × (b ≡ true)
both_true a b h = ground arith

pub second_true : (a b : Bool) → a ≡ false → (a || b) ≡ true → b ≡ true
second_true a b e h = ground arith

pub same_flag_eq : (a b : Bool) → same_flag b a ≡ true → a ≡ b
same_flag_eq a b h = ground arith

module _ (cfg : BestpathConfig) where
  pub beyond-EqualCost :
      (a b : BgpPath)
      → is_beyond (path_cmp cfg a b).1 ≡ true
      → a.peer.is_ebgp ≡ b.peer.is_ebgp
      → (cfg.as_path_multipath_relax ≡ false → a.attrs.as_path ≡ b.attrs.as_path)
      → EqualCost cfg a b
  unfolding path_cmp
  beyond-EqualCost a b h external paths =
      let (resolved, h1) = beyond-ask _ _ _ refl h in
      let (weight, h2) = beyond-ask _ _ _ refl h1 in
      let (local_pref, h3) = beyond-ask _ _ _ refl h2 in
      let (source, h4) = beyond-ask _ _ _ refl h3 in
      let (len, h5) = beyond-ask_if _ _ _ _ refl h4 in
      let (origin, h6) = beyond-ask _ _ _ refl h5 in
      let (med, h7) = beyond-ask_if _ _ _ _ refl h6 in
      let (side, h8) = beyond-ask _ _ _ refl h7 in
      let (metric, h9) = beyond-ask _ _ _ refl h8 in
      record {
        weight = sym (tie-eq _ _ weight);
        local_pref = sym (tie-eq _ _ local_pref);
        source = tie-eq _ _ source;
        as_path_len = λ e. tie-eq _ _ (len (ap not e));
        origin = tie-eq _ _ origin;
        med = λ e. tie-eq _ _ (med e);
        is_ebgp = external;
        igp_metric = tie-eq _ _ metric;
        as_path = paths;
      }
