-- ===== src/Policy/Decision.antt =====
-- packets/routing/rtengine/policy/routemap.py: what `RouteMap.apply` decides.
use packets.Base.{
  ◌+◌, String, Bool, true, false, Option, none, some, List, [], ◌∷◌, ◌++◌, ◌≡◌, ◌⊎◌, refl, ap,
  if◌then◌else◌, inl, inr, All,
}
use packets.Rib.Route.{Prefix}
use packets.Policy.Conditions.{Resolver, PathAttrs}
use packets.Policy.RouteMap.{
  Action, deny, permit, RouteMapClause, RouteMap, RouteMapResult, all_match, past_decided, decided,
  by_action, settle, apply,
}

-- The result without a clause, and that of a clause: the edits of a deny are not applied.
abbrev pub implicit_deny : {Edits : Type 0} → RouteMapResult Edits
implicit_deny = record { action = deny; clause = none; sets = none; weight = none; matched = false }

module _ {Pattern : Type 0} {Edits : Type 0} where
  abbrev pub outcome_of : Action → RouteMapClause Pattern Edits → RouteMapResult Edits
  outcome_of permit c = record {
    action = permit;
    clause = some c.seq;
    sets = some c.set;
    weight = c.weight;
    matched = true;
  }
  outcome_of deny c = record {
    action = deny;
    clause = some c.seq;
    sets = none;
    weight = none;
    matched = true;
  }

  abbrev pub hit : RouteMapClause Pattern Edits → RouteMapClause Pattern Edits
  hit c = record c { hits = c.hits + 1 }

  module _ (search : Pattern → String → Bool) (resolver : Option Resolver) (prefix : Prefix)
      (attrs : Option PathAttrs) where
    abbrev pub Fires : Bool → RouteMapClause Pattern Edits → Type 0
    Fires b c = all_match search resolver c.match prefix attrs ≡ b

    -- The first clause of which all conditions hold, its hit counted; none if there is no such clause.
    abbrev pub FirstOf :
        List (RouteMapClause Pattern Edits)
        → Option (RouteMapClause Pattern Edits × List (RouteMapClause Pattern Edits))
        → Type 0
    FirstOf clauses none = All (Fires false) clauses
    FirstOf clauses (some (c, left)) =
        (front : List (RouteMapClause Pattern Edits)) × (rest : List (RouteMapClause Pattern Edits))
        × (clauses ≡ front ++ c ∷ rest)
        × (left ≡ front ++ hit c ∷ rest)
        × All (Fires false) front
        × Fires true c

    FirstOf-past :
        (e : RouteMapClause Pattern Edits) (clauses : List (RouteMapClause Pattern Edits))
        (o : Option (RouteMapClause Pattern Edits × List (RouteMapClause Pattern Edits)))
        → Fires false e
        → FirstOf clauses o
        → FirstOf (e ∷ clauses) (past_decided e o)
    FirstOf-past e clauses none no_fire h = (no_fire, h)
    FirstOf-past e clauses (some (c, left)) no_fire (front, rest, x, y, all, fires) =
        (e ∷ front, rest, ap (λ l. e ∷ l) x, ap (λ l. e ∷ l) y, (no_fire, all), fires)

    step-FirstOf :
        (c : RouteMapClause Pattern Edits) (clauses : List (RouteMapClause Pattern Edits))
        (b : Bool) (o : Option (RouteMapClause Pattern Edits × List (RouteMapClause Pattern Edits)))
        → Fires b c
        → FirstOf clauses o
        → FirstOf (c ∷ clauses) (if b then some (c, hit c ∷ clauses) else past_decided c o)
    step-FirstOf c clauses true o e h = ([], clauses, refl, refl, tt, e)
    step-FirstOf c clauses false o e h = FirstOf-past c clauses o e h

    pub decided-FirstOf :
        (clauses : List (RouteMapClause Pattern Edits))
        → FirstOf clauses (decided search resolver prefix attrs clauses)
    unfolding decided
    decided-FirstOf [] = tt
    decided-FirstOf (c ∷ clauses) =
        step-FirstOf c clauses (all_match search resolver c.match prefix attrs)
          (decided search resolver prefix attrs clauses) refl (decided-FirstOf clauses)

    abbrev pub IsDecision : List (RouteMapClause Pattern Edits) → RouteMapResult Edits → Type 0
    IsDecision clauses result =
        (All (Fires false) clauses × (result ≡ implicit_deny))
        ⊎ ((front : List (RouteMapClause Pattern Edits)) × (c : RouteMapClause Pattern Edits)
            × (rest : List (RouteMapClause Pattern Edits)) × (clauses ≡ front ++ c ∷ rest)
            × All (Fires false) front
            × Fires true c
            × (result ≡ outcome_of c.action c))

    result-by_action :
        (a : Action) (m : RouteMap Pattern Edits) (c : RouteMapClause Pattern Edits)
        → (by_action a m c).1 ≡ outcome_of a c
    result-by_action permit m c = refl
    result-by_action deny m c = refl

    settle-IsDecision :
        (m : RouteMap Pattern Edits) (clauses : List (RouteMapClause Pattern Edits))
        (o : Option (RouteMapClause Pattern Edits × List (RouteMapClause Pattern Edits)))
        → FirstOf clauses o
        → IsDecision clauses (settle m o).1
    settle-IsDecision m clauses none h = inl (h, refl)
    settle-IsDecision m clauses (some (c, left)) (front, rest, x, y, all, fires) =
        inr
          (front, c, rest, x, all, fires, result-by_action c.action (record m { clauses = left }) c)

  -- A route map decides by the first clause all of whose conditions hold: by its action, with its edits and
  -- its weight if it permits. Without such a clause it denies, as not matched.
  pub apply-IsDecision :
      (search : Pattern → String → Bool) (m : RouteMap Pattern Edits) (prefix : Prefix)
      (attrs : Option PathAttrs)
      → IsDecision search m.resolver prefix attrs m.clauses (apply search m prefix attrs).1
  apply-IsDecision search m prefix attrs =
      settle-IsDecision search m.resolver prefix attrs (record m { applied = m.applied + 1 })
        m.clauses (decided search m.resolver prefix attrs m.clauses)
        (decided-FirstOf search m.resolver prefix attrs m.clauses)
