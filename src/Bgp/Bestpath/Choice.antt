-- ===== src/Bgp/Bestpath/Choice.antt =====
-- packets/routing/rtengine/plugins/bgp/bestpath.pyx: which path `_select` chooses, where its comparison
-- does not depend on the order of the paths.
use packets.Base.{
  ℕ, Bool, true, ◌||◌, Option, none, some, List, [], ◌∷◌, length, ◌≡◌, ◌↔◌, sym, ap, ◌∙◌, inl, inr,
  if◌then◌else◌, Bool-cases, arith, All,
}
use mathlib.Core.Path.{subst}
use mathlib.Core.Logic.{∥∥₁_map}
use mathlib.Core.List.{Mem, Memᴰ, mem-cons_self, not-mem-nil}
use mathlib.Core.List.Memᴰ.{cases_cons, not-nil, head, tail}
use packets.Base.Members.{test_at, All-members, keep_head, keep_tail, keep_cases, keep_All}
use packets.Rib.RouteTable.Select.{tie}
use packets.Bgp.Bestpath.Order.{flip, holds, holds_both, IsOrder}
use packets.Bgp.Bestpath.Compare.{BgpPath, BestpathConfig, path_cmp}
use packets.Bgp.Bestpath.Ranking.{decision, decision-IsOrder, path_cmp-decision}
use packets.Bgp.Bestpath.Select.{
  champion, med_group_winners, resolved_of, select, select_among, decide_among,
}
use packets.Bgp.Bestpath.Champion.{Stands, champion-at, champion-Stands, tie_self}
use packets.Bgp.Bestpath.Contest.{same_neighbor, ChoiceIn, grouped-Choice}

-- A path of the list that can be chosen.
abbrev pub Candidate : List BgpPath → BgpPath → Type 0
Candidate paths p = Mem p paths × (p.resolved ≡ true)

-- No candidate of its neighbouring AS is before it.
abbrev pub Leads : BestpathConfig → List BgpPath → BgpPath → Type 0
Leads cfg paths p =
    (q : BgpPath) → Candidate paths q → same_neighbor p q ≡ true → holds (path_cmp cfg p q).0 ≡ true

-- A candidate that leads its AS, and that none that leads its own is before.
abbrev pub Winner : BestpathConfig → List BgpPath → BgpPath → Type 0
Winner cfg paths p =
    Candidate paths p
    × Leads cfg paths p
    × ((q : BgpPath) → Candidate paths q → Leads cfg paths q → holds (path_cmp cfg p q).0 ≡ true)

abbrev pub IsChoice : BestpathConfig → List BgpPath → Option BgpPath → Type 0
IsChoice cfg paths none = (q : BgpPath) → Candidate paths q → ⊥
IsChoice cfg paths (some p) = Winner cfg paths p

-- The knobs under which the order of the paths does not matter.
abbrev pub is_orderly : BestpathConfig → Bool
is_orderly cfg = cfg.deterministic_med || cfg.always_compare_med

-- The resolved paths of a list.
resolvedᴰ :
    (paths : List BgpPath) (q : BgpPath)
    → q.resolved ≡ true
    → Memᴰ q paths
    → Memᴰ q (resolved_of paths)
resolvedᴰ [] q r d = absurd (not-nil d)
resolvedᴰ (x ∷ paths) q r d = elim (cases_cons d) [
  | inl e ↦ keep_head x.resolved x q (resolved_of paths) (sym (ap (λ y. y.resolved) e) ∙ r) e
  | inr m ↦ keep_tail x.resolved x q (resolved_of paths) (resolvedᴰ paths q r m)
]

of_resolvedᴰ : (paths : List BgpPath) (q : BgpPath) → Memᴰ q (resolved_of paths) → Memᴰ q paths
of_resolvedᴰ [] q d = d
of_resolvedᴰ (x ∷ paths) q d = elim (keep_cases x.resolved x q (resolved_of paths) d) [
  | inl e ↦ head e
  | inr m ↦ tail (of_resolvedᴰ paths q m)
]

resolved_of-All : (paths : List BgpPath) → All (λ q. q.resolved ≡ true) (resolved_of paths)
resolved_of-All [] = tt
resolved_of-All (x ∷ paths) =
    keep_All (λ q. q.resolved ≡ true) x.resolved x (resolved_of paths) (λ r. r)
      (resolved_of-All paths)

module _ (paths : List BgpPath) (q : BgpPath) where
  pub is_eligible : Candidate paths q → Mem q (resolved_of paths)
  is_eligible (m, r) = ∥∥₁_map m (resolvedᴰ paths q r)

  pub resolved_of-Candidate : Mem q (resolved_of paths) → Candidate paths q
  resolved_of-Candidate m = (
    ∥∥₁_map m (of_resolvedᴰ paths q),
    test_at (λ x. x.resolved ≡ true) (resolved_of paths) q (resolved_of-All paths) m q.resolved true
        (λ r. r),
  )

same_neighbor_sym : (a b : BgpPath) → same_neighbor b a ≡ same_neighbor a b
same_neighbor_sym a b = ground arith

module _ (cfg : BestpathConfig) where
  -- The only one.
  single-Choice : (p : BgpPath) → ChoiceIn cfg (p ∷ []) (some p)
  single-Choice p =
      let c = decision cfg (cfg.always_compare_med || same_neighbor p p) in
      let self =
        path_cmp-decision cfg p p
        ∙ tie_self c (decision-IsOrder cfg (cfg.always_compare_med || same_neighbor p p)) p in
      let stands : (q : BgpPath) → Mem q (p ∷ []) → holds (path_cmp cfg p q).0 ≡ true = λ q m.
        test_at (λ x. holds (path_cmp cfg p x).0 ≡ true) (p ∷ []) q (ap holds self, tt) m _ true
          (λ h. h) in
      (mem-cons_self, (λ q m same. stands q m), (λ q m leads. stands q m))

  -- Without groups, where the MED is always compared.
  always_agrees :
      cfg.always_compare_med ≡ true → (x y : BgpPath) → (path_cmp cfg x y).0 ≡ decision cfg true x y
  always_agrees e x y =
      path_cmp-decision cfg x y ∙ ap (λ m. decision cfg m x y) {y = true} (ground arith)

  linear-Choice :
      cfg.always_compare_med ≡ true
      → (n : ℕ) (p : BgpPath) (l : List BgpPath)
      → ChoiceIn cfg (p ∷ l) (decide_among cfg n (p ∷ l) (p ∷ l)).best
  linear-Choice always n p l =
      let c = decision cfg true in
      let order = decision-IsOrder cfg true in
      let win = champion cfg p l in
      let inside = All-members (λ x. Mem x (p ∷ l)) (p ∷ l) (λ x m. m) in
      let over =
        champion-Stands c order cfg (λ x. Unit) (λ x y u v. always_agrees always x y) p l tt
          (All-members (λ x. Unit) l (λ x m. tt)) in
      let stands : (q : BgpPath) → Mem q (p ∷ l) → holds (path_cmp cfg win q).0 ≡ true = λ q m.
        ap holds (always_agrees always win q)
        ∙ test_at (Stands c win) (p ∷ l) q over m _ true (λ h. h) in
      (
        champion-at c order cfg (λ x. Mem x (p ∷ l)) p l inside.0 inside.1,
        (λ q m same. stands q m),
        (λ q m leads. stands q m),
      )

  among-Choice :
      is_orderly cfg ≡ true
      → (n : ℕ) (l : List BgpPath) → ChoiceIn cfg l (select_among cfg n l).best
  among-Choice orderly n [] = λ q m. not-mem-nil m
  among-Choice orderly n (p ∷ []) = single-Choice p
  among-Choice orderly n (p ∷ q ∷ l) =
      let all = p ∷ q ∷ l in
      let grouped = med_group_winners cfg all in
      elim (Bool-cases cfg.deterministic_med) [
        | inl e ↦
            subst (λ b. ChoiceIn cfg all (decide_among cfg n all (if b then grouped else all)).best)
              (sym e) (grouped-Choice cfg all n all)
        | inr e ↦
            subst (λ b. ChoiceIn cfg all (decide_among cfg n all (if b then grouped else all)).best)
              (sym e) (linear-Choice (ground arith) n p (q ∷ l))
      ]

  of_eligible :
      (paths : List BgpPath) (o : Option BgpPath)
      → ChoiceIn cfg (resolved_of paths) o
      → IsChoice cfg paths o
  of_eligible paths none f = λ q c. f q (is_eligible paths q c)
  of_eligible paths (some p) (m, leads, over) = (
    resolved_of-Candidate paths p m,
    (λ q c same. leads q (is_eligible paths q c) same),
    (λ q c leads_q.
        over q (is_eligible paths q c)
          (λ r mr same. leads_q r (resolved_of-Candidate paths r mr) same)),
  )

  -- Where the MED is always compared or the paths are grouped: `select` chooses a resolved path that none
  -- of its neighbouring AS is before, and that no other such path is before; it chooses none only if no
  -- path is resolved.
  pub select-IsChoice :
      is_orderly cfg ≡ true → (paths : List BgpPath) → IsChoice cfg paths (select cfg paths).best
  unfolding select
  select-IsChoice orderly paths =
      of_eligible paths _ (among-Choice orderly (length paths) (resolved_of paths))

  path_cmp_flips : (a b : BgpPath) → (path_cmp cfg b a).0 ≡ flip (path_cmp cfg a b).0
  path_cmp_flips a b =
      let m = cfg.always_compare_med || same_neighbor a b in
      path_cmp-decision cfg b a
      ∙ ap (λ n. decision cfg (cfg.always_compare_med || n) b a) (same_neighbor_sym a b)
      ∙ order.flips a b
      ∙ ap flip (sym (path_cmp-decision cfg a b))
    where
      order : IsOrder (decision cfg (cfg.always_compare_med || same_neighbor a b))
      order = decision-IsOrder cfg (cfg.always_compare_med || same_neighbor a b)

  -- Two winners of the same paths tie.
  abbrev pub Ties : Option BgpPath → Option BgpPath → Type 0
  Ties none none = Unit
  Ties none (some b) = ⊥
  Ties (some a) none = ⊥
  Ties (some a) (some b) = (path_cmp cfg a b).0 ≡ tie

  module _ (xs ys : List BgpPath) (same : (p : BgpPath) → Mem p xs ↔ Mem p ys) where
    there : (p : BgpPath) → Candidate xs p → Candidate ys p
    there p (m, r) = ((same p).0 m, r)

    back : (p : BgpPath) → Candidate ys p → Candidate xs p
    back p (m, r) = ((same p).1 m, r)

    choices-Ties : (o u : Option BgpPath) → IsChoice cfg xs o → IsChoice cfg ys u → Ties o u
    choices-Ties none none f g = tt
    choices-Ties none (some b) f g = f b (back b g.0)
    choices-Ties (some a) none f g = g a (there a f.0)
    choices-Ties (some a) (some b) (ca, leads_a, over_a) (cb, leads_b, over_b) =
        holds_both (path_cmp cfg a b).0 (path_cmp cfg b a).0 (path_cmp_flips a b)
          (over_a b (back b cb) (λ q c s. leads_b q (there q c) s))
          (over_b a (there a ca) (λ q c s. leads_a q (back q c) s))

  -- Where the MED is always compared or the paths are grouped: two lists of the same paths have both
  -- no best path, or best paths that tie on every criterion.
  pub select_independent :
      is_orderly cfg ≡ true
      → (xs ys : List BgpPath) → ((p : BgpPath) → Mem p xs ↔ Mem p ys)
      → Ties (select cfg xs).best (select cfg ys).best
  select_independent orderly xs ys same =
      choices-Ties xs ys same _ _ (select-IsChoice orderly xs) (select-IsChoice orderly ys)
