-- ===== src/Policy/RouteMap.antt =====
-- packets/routing/rtengine/policy/routemap.py: `RouteMap` and its clauses. A clause is given as its
-- constructor builds it, with a legal sequence number; its edits are of any type.
use packets.Base.{
  ℕ, ◌+◌, String, Bool, true, false, ◌&&◌, Option, none, some, List, [], ◌∷◌, length, if◌then◌else◌,
  eqb, ltb,
}
use packets.Rib.Route.{Prefix}
use packets.Policy.Conditions.{Match, Resolver, PathAttrs, matches}

pub data Action : Type 0 where
  deny : Action
  permit : Action

pub record RouteMapClause (Pattern : Type 0) (Edits : Type 0) : Type 0 where
  pub seq : ℕ
  pub action : Action
  pub match : List (Match Pattern)
  pub set : Edits
  pub weight : Option ℕ
  pub hits : ℕ

pub record RouteMap (Pattern : Type 0) (Edits : Type 0) : Type 0 where
  pub name : String
  pub clauses : List (RouteMapClause Pattern Edits)
  pub version : ℕ
  pub resolver : Option Resolver
  pub applied : ℕ
  pub permitted : ℕ
  pub denied : ℕ
  pub unmatched : ℕ

pub record RouteMapResult (Edits : Type 0) : Type 0 where
  pub action : Action
  pub clause : Option ℕ
  pub sets : Option Edits
  pub weight : Option ℕ
  pub matched : Bool

module _ {Pattern : Type 0} (search : Pattern → String → Bool) where
  -- `RouteMapClause.matches`
  abbrev pub all_match : Option Resolver → List (Match Pattern) → Prefix → Option PathAttrs → Bool
  all_match resolver [] prefix attrs = true
  all_match resolver (test ∷ tests) prefix attrs =
      matches search resolver test prefix attrs && all_match resolver tests prefix attrs

module _ {Pattern : Type 0} {Edits : Type 0} where
  abbrev pub new : String → Option Resolver → RouteMap Pattern Edits
  new name resolver = record {
    name = name;
    clauses = [];
    version = 0;
    resolver = resolver;
    applied = 0;
    permitted = 0;
    denied = 0;
    unmatched = 0;
  }

  -- The loop of `add_clause`
  unfoldable pub placed :
      RouteMapClause Pattern Edits
      → List (RouteMapClause Pattern Edits)
      → List (RouteMapClause Pattern Edits)
  placed clause [] = clause ∷ []
  placed clause (existing ∷ clauses) =
      let rest = placed clause clauses in
      if eqb existing.seq clause.seq
      then clause ∷ clauses
      else if ltb clause.seq existing.seq
      then clause ∷ existing ∷ clauses
      else existing ∷ rest

  abbrev pub add_clause :
      RouteMap Pattern Edits → RouteMapClause Pattern Edits → RouteMap Pattern Edits
  add_clause m clause = record m { clauses = placed clause m.clauses; version = m.version + 1 }

  abbrev pub past_removed :
      RouteMapClause Pattern Edits
      → Option (List (RouteMapClause Pattern Edits))
      → Option (List (RouteMapClause Pattern Edits))
  past_removed c none = none
  past_removed c (some clauses) = some (c ∷ clauses)

  -- The loop of `remove_clause`
  unfoldable pub removed :
      ℕ → List (RouteMapClause Pattern Edits) → Option (List (RouteMapClause Pattern Edits))
  removed seq [] = none
  removed seq (c ∷ clauses) =
      let rest = removed seq clauses in if eqb c.seq seq then some clauses else past_removed c rest

  abbrev pub settle_remove :
      RouteMap Pattern Edits
      → Option (List (RouteMapClause Pattern Edits))
      → RouteMap Pattern Edits × Bool
  settle_remove m none = (m, false)
  settle_remove m (some clauses) = (record m { clauses = clauses; version = m.version + 1 }, true)

  abbrev pub remove_clause : RouteMap Pattern Edits → ℕ → RouteMap Pattern Edits × Bool
  remove_clause m seq = settle_remove m (removed seq m.clauses)

  abbrev pub clear : RouteMap Pattern Edits → RouteMap Pattern Edits × ℕ
  clear m =
      let count = length m.clauses in
      (record m { clauses = []; version = if ltb 0 count then m.version + 1 else m.version }, count)

  abbrev pub past_decided :
      RouteMapClause Pattern Edits
      → Option (RouteMapClause Pattern Edits × List (RouteMapClause Pattern Edits))
      → Option (RouteMapClause Pattern Edits × List (RouteMapClause Pattern Edits))
  past_decided c none = none
  past_decided c (some (d, clauses)) = some (d, c ∷ clauses)

  abbrev pub by_action :
      Action
      → RouteMap Pattern Edits
      → RouteMapClause Pattern Edits
      → RouteMap Pattern Edits × RouteMapResult Edits
  by_action permit m c = (
    record m { permitted = m.permitted + 1 },
    record {
      action = permit;
      clause = some c.seq;
      sets = some c.set;
      weight = c.weight;
      matched = true;
    },
  )
  by_action deny m c = (
    record m { denied = m.denied + 1 },
    record { action = deny; clause = some c.seq; sets = none; weight = none; matched = true },
  )

  abbrev pub settle :
      RouteMap Pattern Edits
      → Option (RouteMapClause Pattern Edits × List (RouteMapClause Pattern Edits))
      → RouteMap Pattern Edits × RouteMapResult Edits
  settle m none = (
    record m { unmatched = m.unmatched + 1 },
    record { action = deny; clause = none; sets = none; weight = none; matched = false },
  )
  settle m (some (c, clauses)) = by_action c.action (record m { clauses = clauses }) c

  module _ (search : Pattern → String → Bool) where
    -- The loop of `apply`: the clause that decides, and the clauses with its hit counted.
    unfoldable pub decided :
        Option Resolver
        → Prefix
        → Option PathAttrs
        → List (RouteMapClause Pattern Edits)
        → Option (RouteMapClause Pattern Edits × List (RouteMapClause Pattern Edits))
    decided resolver prefix attrs [] = none
    decided resolver prefix attrs (c ∷ clauses) =
        let rest = decided resolver prefix attrs clauses in
        if all_match search resolver c.match prefix attrs
        then some (c, record c { hits = c.hits + 1 } ∷ clauses)
        else past_decided c rest

    abbrev pub apply :
        RouteMap Pattern Edits
        → Prefix
        → Option PathAttrs
        → RouteMap Pattern Edits × RouteMapResult Edits
    apply m prefix attrs =
        settle (record m { applied = m.applied + 1 }) (decided m.resolver prefix attrs m.clauses)
