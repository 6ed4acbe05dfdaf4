-- ===== src/Bgp/Bestpath/Champion.antt =====
-- packets/routing/rtengine/plugins/bgp/bestpath.pyx: the loop of `_select` over the contenders, for any
-- order that `path_cmp` follows on them.
use packets.Base.{
  true, false, List, [], ◌∷◌, ◌≡◌, refl, sym, ap, ◌∙◌, Bool-cases, inl, inr, arith, All,
}
use packets.Rib.RouteTable.Select.{Sign, before, tie, after}
use packets.Bgp.Bestpath.Order.{flip_is_self, flip, holds, IsOrder}
use packets.Bgp.Bestpath.Compare.{BgpPath, BestpathConfig, path_cmp}
use packets.Bgp.Bestpath.Select.{champion, stronger, is_after}

abbrev pub Stands : (BgpPath → BgpPath → Sign) → BgpPath → BgpPath → Type 0
Stands c w q = holds (c w q) ≡ true

wins_back : (s t : Sign) → t ≡ flip s → is_after s ≡ true → holds t ≡ true
wins_back before t e h = absurd (ground arith)
wins_back tie t e h = absurd (ground arith)
wins_back after t e h = ap holds e

not_after-holds : (s : Sign) → is_after s ≡ false → holds s ≡ true
not_after-holds before h = refl
not_after-holds tie h = refl
not_after-holds after h = absurd (ground arith)

module _ (c : BgpPath → BgpPath → Sign) (o : IsOrder c) where
  pub tie_self : (x : BgpPath) → c x x ≡ tie
  tie_self x = flip_is_self (c x x) (o.flips x x)

  pub Stands-self : (x : BgpPath) → Stands c x x
  Stands-self x = ap holds (tie_self x)

  module _ (cfg : BestpathConfig) where
    pub stronger-Stands :
        (b p : BgpPath)
        → (path_cmp cfg b p).0 ≡ c b p
        → Stands c (stronger cfg b p) b × Stands c (stronger cfg b p) p
    stronger-Stands b p e = elim (Bool-cases (is_after (path_cmp cfg b p).0)) [
      | inl h ↦
          rw h (wins_back (c b p) (c p b) (o.flips b p) (ap is_after (sym e) ∙ h), Stands-self p)
      | inr h ↦ rw h (Stands-self b, not_after-holds (c b p) (ap is_after (sym e) ∙ h))
    ]

    pub stronger-at : (D : BgpPath → Type 0) (b p : BgpPath) → D b → D p → D (stronger cfg b p)
    stronger-at D b p x y = elim (Bool-cases (is_after (path_cmp cfg b p).0)) [
      | inl h ↦ rw h y
      | inr h ↦ rw h x
    ]

    pub champion-at :
        (D : BgpPath → Type 0) (b : BgpPath) (paths : List BgpPath)
        → D b
        → All D paths
        → D (champion cfg b paths)
    unfolding champion
    champion-at D b [] x all = x
    champion-at D b (p ∷ paths) x all =
        champion-at D (stronger cfg b p) paths (stronger-at D b p x all.0) all.1

    -- No contender is before the one that is left.
    pub champion-Stands :
        (D : BgpPath → Type 0)
        → ((x y : BgpPath) → D x → D y → (path_cmp cfg x y).0 ≡ c x y)
        → (b : BgpPath) (paths : List BgpPath) → D b
        → All D paths
        → All (Stands c (champion cfg b paths)) (b ∷ paths)
    unfolding champion
    champion-Stands D agree b [] x all = (Stands-self b, tt)
    champion-Stands D agree b (p ∷ paths) x all =
        let next = stronger cfg b p in
        let win = champion cfg next paths in
        let (over_next, rest) =
          champion-Stands D agree next paths (stronger-at D b p x all.0) all.1 in
        let (over_b, over_p) = stronger-Stands b p (agree b p x all.0) in
        (o.trans win next b over_next over_b, (o.trans win next p over_next over_p, rest))
