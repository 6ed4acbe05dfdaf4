-- ===== src/Bgp/Bestpath/Contest.antt =====
-- packets/routing/rtengine/plugins/bgp/bestpath.pyx: the contest of the paths that stand for the
-- neighbouring ASes.
use packets.Base.{
  ℕ, nat_key, Bool, true, false, Option, none, some, List, [], ◌∷◌, ◌≡◌, sym, ap, ◌∙◌, inl, inr,
  eqb, Bool-cases, Option-cases, arith, All,
}
use packets.Base.Dict.{Dict, get}
use mathlib.Core.Path.{subst}
use mathlib.Core.List.{Mem}
use packets.Base.Members.{test_at}
use packets.Rib.RouteTable.Select.{tie}
use packets.Bgp.Bestpath.Order.{holds, both_tie, tie-holds}
use packets.Bgp.Bestpath.Compare.{BgpPath, BestpathConfig, path_cmp}
use packets.Bgp.Bestpath.Ranking.{decision, decision-IsOrder, path_cmp-decision, tie-any}
use packets.Bgp.Bestpath.Select.{group_winners, champion, med_group_winners, decide_among}
use packets.Bgp.Bestpath.Champion.{Stands, champion-at, champion-Stands, tie_self}
use packets.Bgp.Bestpath.Groups.{winners-All, All-winners}
use packets.Bgp.Bestpath.Grouping.{Grouped, groups-Grouped, path_cmp-same_as}

abbrev pub same_neighbor : BgpPath → BgpPath → Bool
same_neighbor a b = eqb a.attrs.neighbor_as b.attrs.neighbor_as

some_injective : (a b : BgpPath) → some a ≡ some b → a ≡ b
some_injective a b e = ap (λ o. elim o [ none ↦ a | some x ↦ x ]) e

module _ (cfg : BestpathConfig) where
  self_ties : (m n : Bool) (x : BgpPath) → decision cfg m x x ≡ decision cfg n x x
  self_ties m n x =
      tie_self (decision cfg m) (decision-IsOrder cfg m) x
      ∙ sym (tie_self (decision cfg n) (decision-IsOrder cfg n) x)

  other_as :
      (x y : BgpPath)
      → same_neighbor x y ≡ false
      → (path_cmp cfg x y).0 ≡ decision cfg cfg.always_compare_med x y
  other_as x y e = path_cmp-decision cfg x y ∙ ap (λ m. decision cfg m x y) (ground arith)

  -- Of those where one path stands for its AS, `path_cmp` follows one order.
  path_cmp-agrees :
      (g : Dict ℕ BgpPath) (x y : BgpPath)
      → get x.attrs.neighbor_as g ≡ some x
      → get y.attrs.neighbor_as g ≡ some y
      → (path_cmp cfg x y).0 ≡ decision cfg cfg.always_compare_med x y
  path_cmp-agrees g x y ex ey = elim (Bool-cases (same_neighbor x y)) [
    | inl e ↦
        let key : x.attrs.neighbor_as ≡ y.attrs.neighbor_as = ground arith in
        let same = some_injective x y (sym ex ∙ ap (λ k. get k g) key ∙ ey) in
        subst (λ z. (path_cmp cfg x z).0 ≡ decision cfg cfg.always_compare_med x z) same
          (path_cmp-decision cfg x x ∙ self_ties _ cfg.always_compare_med x)
    | inr e ↦ other_as x y e
  ]

  module _ (l : List BgpPath) where
    abbrev pub LeadsIn : BgpPath → Type 0
    LeadsIn p =
        (q : BgpPath) → Mem q l → same_neighbor p q ≡ true → holds (path_cmp cfg p q).0 ≡ true

    -- The groups of the list.
    abbrev groups : Dict ℕ BgpPath
    groups = group_winners cfg l []

    abbrev Stood : BgpPath → Type 0
    Stood w = Mem w l × LeadsIn w × (get w.attrs.neighbor_as groups ≡ some w)

    Stood-at : (k : ℕ) (w : BgpPath) → get k groups ≡ some w → Stood w
    Stood-at k w e =
        let (m, key, out) = subst (Grouped cfg l k) e (groups-Grouped cfg l k) in
        let own : k ≡ w.attrs.neighbor_as = ground arith in
        (
          m,
          (λ q mq same.
              ap holds (path_cmp-same_as cfg w q same)
              ∙ test_at _ l q out mq (holds (decision cfg true w q)) true (λ f. f (ground arith))),
          ap (λ j. get j groups) (sym own) ∙ e,
        )

    -- A path that leads its AS ties with the one that stands for it.
    leads-tie :
        (q w : BgpPath)
        → Mem q l
        → LeadsIn q
        → get q.attrs.neighbor_as groups ≡ some w
        → decision cfg true w q ≡ tie
    leads-tie q w mq leads e =
        let (mw, leads_w, at) = Stood-at q.attrs.neighbor_as w e in
        let (m, key, out) =
          subst (Grouped cfg l q.attrs.neighbor_as) e (groups-Grouped cfg l q.attrs.neighbor_as) in
        both_tie (decision cfg true) (decision-IsOrder cfg true) w q
          (sym (ap holds (path_cmp-same_as cfg w q key)) ∙ leads_w q mq key)
          (sym (ap holds (path_cmp-same_as cfg q w (ground arith))) ∙ leads w mw (ground arith))

    some-of-Mem : (q : BgpPath) → Mem q l → get q.attrs.neighbor_as groups ≡ none → ⊥
    some-of-Mem q m e =
        let all =
          subst (Grouped cfg l q.attrs.neighbor_as) e (groups-Grouped cfg l q.attrs.neighbor_as) in
        let bad : true ≡ false = test_at _ l q all m true false (λ out. ground arith) in
        absurd (ground arith)

    abbrev pub ChoiceIn : Option BgpPath → Type 0
    ChoiceIn none = (q : BgpPath) → Mem q l → ⊥
    ChoiceIn (some p) =
        Mem p l
        × LeadsIn p
        × ((q : BgpPath) → Mem q l → LeadsIn q → holds (path_cmp cfg p q).0 ≡ true)

    -- What the loop chooses of paths that stand for all the groups.
    decide-Choice :
        (n : ℕ) (e : List BgpPath) (winners : List BgpPath)
        → All Stood winners
        → ((P : BgpPath → Type 0)
            → All P winners
            → (k : ℕ) (w : BgpPath) → get k groups ≡ some w
            → P w)
        → ChoiceIn (decide_among cfg n e winners).best
    decide-Choice n e [] stood every = λ q m. elim (Option-cases (get q.attrs.neighbor_as groups)) [
      | inl none_there ↦ some-of-Mem q m none_there
      | inr (w, there) ↦ every (λ x. ⊥) tt q.attrs.neighbor_as w there
    ]
    decide-Choice n e (b ∷ winners) stood every =
        let c = decision cfg cfg.always_compare_med in
        let order = decision-IsOrder cfg cfg.always_compare_med in
        let win = champion cfg b winners in
        let (m, leads, at) = champion-at c order cfg Stood b winners stood.0 stood.1 in
        let over =
          champion-Stands c order cfg Stood (λ x y sx sy. path_cmp-agrees groups x y sx.2 sy.2) b
            winners stood.0 stood.1 in
        (
          m,
          leads,
          (λ q mq leads_q. elim (Bool-cases (same_neighbor win q)) [
            | inl same ↦ leads q mq same
            | inr other ↦
                ap holds (other_as win q other)
                ∙ elim (Option-cases (get q.attrs.neighbor_as groups)) [
                  | inl none_there ↦ absurd (some-of-Mem q mq none_there)
                  | inr (w, there) ↦
                      order.trans win w q (every (Stands c win) over q.attrs.neighbor_as w there) (
                        tie-holds (c w q)
                          (tie-any cfg cfg.always_compare_med w q (leads-tie q w mq leads_q there)))
                ]
          ]),
        )

    pub grouped-Choice :
        (n : ℕ) (e : List BgpPath) → ChoiceIn (decide_among cfg n e (med_group_winners cfg l)).best
    grouped-Choice n e =
        decide-Choice n e (med_group_winners cfg l) (All-winners Stood groups Stood-at)
          (λ P all k w. winners-All P groups all k w)
