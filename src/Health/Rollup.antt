-- ===== src/Health/Rollup.antt =====
-- packets/routing/rtengine/health.py: the roll-up of statuses by `worst`.
use packets.Base.{ℕ, max, ◌≡◌, String, Option, none, some, List, [], ◌∷◌, ◌++◌, arith}
use packets.Health.Monitor.{Status, ok, severity, recognised, worse, worst_from, worst}

-- How bad a component's status is; one that reports none counts as good.
abbrev pub level : Option String → ℕ
level none = 0
level (some text) = severity (recognised text)

abbrev pub highest : List (Option String) → ℕ
highest [] = 0
highest (s ∷ ss) = max (level s) (highest ss)

worse-level :
    (found : Status) (s : Option String) → severity (worse found s) ≡ max (severity found) (level s)
worse-level found none = ground arith
worse-level found (some text) = ground arith

worst_from-highest :
    (found : Status) (ss : List (Option String))
    → severity (worst_from found ss) ≡ max (severity found) (highest ss)
worst_from-highest found [] = ground arith
worst_from-highest found (s ∷ ss) =
    let step = worse-level found s in
    let rest = worst_from-highest (worse found s) ss in omega arith

highest-append : (ss ts : List (Option String)) → highest (ss ++ ts) ≡ max (highest ss) (highest ts)
highest-append [] ts = omega arith
highest-append (s ∷ ss) ts = let rest = highest-append ss ts in omega arith

severity-inj : (a b : Status) → severity a ≡ severity b → a ≡ b
severity-inj a b e = ground arith

-- The overall status is as bad as the worst component, and rolling up two groups of components
-- gives the same in either order.
pub worst-highest :
    (ss ts : List (Option String))
    → (severity (worst (ss ++ ts)) ≡ max (highest ss) (highest ts))
      × (worst (ss ++ ts) ≡ worst (ts ++ ss))
unfolding worst
worst-highest ss ts =
    let here = worst_from-highest ok (ss ++ ts) in
    let there = worst_from-highest ok (ts ++ ss) in
    let a = highest-append ss ts in
    let b = highest-append ts ss in (omega arith, severity-inj _ _ (omega arith))
