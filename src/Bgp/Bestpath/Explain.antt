-- ===== src/Bgp/Bestpath/Explain.antt =====
-- packets/routing/rtengine/plugins/bgp/bestpath.pyx: `explain`. The marks that it saves and restores are
-- here read off the result.
use packets.Base.{
  ℕ, ◌≤◌, Bool, true, false, ◌||◌, Option, none, some, List, [], ◌∷◌, length, ◌≡◌, refl, sym, ap,
  ◌∙◌, if◌then◌else◌, ltb, Bool-cases, inl, inr, arith,
}
use mathlib.Core.Path.{subst}
use packets.Bgp.Bestpath.Compare.{BgpPath, BestpathConfig, path_cmp, step_none}
use packets.Bgp.Bestpath.Select.{
  BestpathResult, select, select_among, decide_among, contenders, resolved_of, decisive_from,
  same_path,
}

-- Of a path that is not the best: whether it is in the multipath set, and the step that decided.
pub data Verdict : Type 0 where
  best_path : Verdict
  unresolved : Verdict
  lost : Bool → ℕ → Verdict

-- The reason `none` is 'no resolvable path'.
pub record Explanation : Type 0 where
  pub best : Option BgpPath
  pub reason : Option ℕ
  pub multipath : ℕ
  pub rows : List (BgpPath × Verdict)

abbrev pub is_marked : BgpPath → List BgpPath → Bool
is_marked p [] = false
is_marked p (q ∷ multipath) = same_path p q || is_marked p multipath

abbrev pub verdict_on : BestpathConfig → List BgpPath → BgpPath → BgpPath → Verdict
verdict_on cfg multipath best p =
    if same_path p best
    then best_path
    else if p.resolved
    then lost (is_marked p multipath) (path_cmp cfg best p).1
    else unresolved

abbrev pub explain_rows :
    BestpathConfig → List BgpPath → BgpPath → List BgpPath → List (BgpPath × Verdict)
explain_rows cfg multipath best [] = []
explain_rows cfg multipath best (p ∷ paths) =
    (p, verdict_on cfg multipath best p) ∷ explain_rows cfg multipath best paths

abbrev pub all_unresolved : List BgpPath → List (BgpPath × Verdict)
all_unresolved [] = []
all_unresolved (p ∷ paths) = (p, unresolved) ∷ all_unresolved paths

abbrev pub explain_result :
    BestpathConfig → List BgpPath → BestpathResult → Option BgpPath → Explanation
explain_result cfg paths res none = record {
  best = none;
  reason = none;
  multipath = 0;
  rows = all_unresolved paths;
}
explain_result cfg paths res (some best) = record {
  best = some best;
  reason = some res.reason;
  multipath = length res.multipath;
  rows = explain_rows cfg res.multipath best paths;
}

abbrev pub explain : List BgpPath → BestpathConfig → Explanation
explain paths cfg = let res = select cfg paths in explain_result cfg paths res res.best

-- The latest step at which a path lost.
abbrev pub later_of : ℕ → Verdict → ℕ
later_of latest best_path = latest
later_of latest unresolved = latest
later_of latest (lost marked step) = if ltb latest step then step else latest

abbrev pub latest_loss : ℕ → List (BgpPath × Verdict) → ℕ
latest_loss latest [] = latest
latest_loss latest ((p, verdict) ∷ rows) = latest_loss (later_of latest verdict) rows

module _ (cfg : BestpathConfig) (multipath : List BgpPath) (best : BgpPath) where
  later_of-verdict :
      (p : BgpPath) (latest : ℕ)
      → p.resolved ≡ true
      → later_of latest (verdict_on cfg multipath best p) ≡ (
          if same_path p best
          then latest
          else if ltb latest (path_cmp cfg best p).1
          then (path_cmp cfg best p).1
          else latest)
  later_of-verdict p latest e = elim (Bool-cases (same_path p best)) [
    | inl s ↦ simp s
    | inr s ↦ simp (s, e)
  ]

  later_of-unresolved :
      (p : BgpPath) (latest : ℕ)
      → p.resolved ≡ false
      → later_of latest (verdict_on cfg multipath best p) ≡ latest
  later_of-unresolved p latest e = elim (Bool-cases (same_path p best)) [
    | inl s ↦ simp s
    | inr s ↦ simp (s, e)
  ]

  decisive-latest :
      (paths : List BgpPath) (latest : ℕ)
      → decisive_from cfg best latest (resolved_of paths)
        ≡ latest_loss latest (explain_rows cfg multipath best paths)
  unfolding decisive_from
  decisive-latest [] latest = refl
  decisive-latest (p ∷ paths) latest = elim (Bool-cases p.resolved) [
    | inl e ↦
        subst
          (λ b.
            decisive_from cfg best latest (if b then p ∷ resolved_of paths else resolved_of paths)
            ≡ latest_loss (later_of latest (verdict_on cfg multipath best p))
                (explain_rows cfg multipath best paths))
          (sym e)
          (decisive-latest paths _
            ∙ ap (λ n. latest_loss n (explain_rows cfg multipath best paths))
                (sym (later_of-verdict p latest e)))
    | inr e ↦
        subst
          (λ b.
            decisive_from cfg best latest (if b then p ∷ resolved_of paths else resolved_of paths)
            ≡ latest_loss (later_of latest (verdict_on cfg multipath best p))
                (explain_rows cfg multipath best paths))
          (sym e)
          (decisive-latest paths latest
            ∙ ap (λ n. latest_loss n (explain_rows cfg multipath best paths))
                (sym (later_of-unresolved p latest e)))
  ]

module _ (cfg : BestpathConfig) where
  abbrev ReasonFits : List BgpPath → BestpathResult → Option BgpPath → Type 0
  ReasonFits paths res o = res.reason ≡ latest_loss step_none (explain_result cfg paths res o).rows

  rows-unresolved :
      (paths : List BgpPath) (latest : ℕ) → latest_loss latest (all_unresolved paths) ≡ latest
  rows-unresolved [] latest = refl
  rows-unresolved (p ∷ paths) latest = rows-unresolved paths latest

  decide-ReasonFits :
      (paths winners : List BgpPath) (n : ℕ)
      → (let res = decide_among cfg n (resolved_of paths) winners in ReasonFits paths res res.best)
  decide-ReasonFits paths [] n = sym (rows-unresolved paths step_none)
  decide-ReasonFits paths (w ∷ winners) n = decisive-latest cfg _ _ paths step_none

  among-ReasonFits :
      (paths l : List BgpPath) (n : ℕ)
      → resolved_of paths ≡ l
      → 2 ≤ length l
      → (let res = select_among cfg n l in ReasonFits paths res res.best)
  among-ReasonFits paths [] n e two = absurd (omega arith)
  among-ReasonFits paths (p ∷ []) n e two = absurd (omega arith)
  among-ReasonFits paths (p ∷ q ∷ l) n e two =
      subst
        (λ k.
          (let res = decide_among cfg n k (contenders cfg (p ∷ q ∷ l)) in
            ReasonFits paths res res.best))
        e (decide-ReasonFits paths (contenders cfg (p ∷ q ∷ l)) n)

  -- With at least two resolved paths, the reason that a selection gives is the latest step at which, as
  -- `explain` reports, a path lost to the best.
  pub explain-reason :
      (paths : List BgpPath)
      → 2 ≤ length (resolved_of paths)
      → (select cfg paths).reason ≡ latest_loss step_none (explain paths cfg).rows
  unfolding select
  explain-reason paths two = among-ReasonFits paths (resolved_of paths) (length paths) refl two
