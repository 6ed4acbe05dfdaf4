-- ===== src/Policy/Calls.antt =====
-- packets/routing/rtengine/policy/routemap.py: a route map through any calls.
use packets.Base.{
  ℕ, ◌+◌, String, Bool, Option, none, some, List, [], ◌∷◌, ◌++◌, ◌≡◌, refl, sym, ap, ◌∙◌,
  if◌then◌else◌, eqb, All, arith,
}
use mathlib.Core.Path.{subst}
use packets.Rib.Route.{Prefix}
use packets.Policy.Conditions.{Resolver, PathAttrs}
use packets.Policy.RouteMap.{
  Action, deny, permit, RouteMapClause, RouteMap, new, add_clause, removed, settle_remove,
  remove_clause, clear, decided, by_action, settle, apply,
}
use packets.Policy.Sequence.{
  body, clause_at, Later, Ascending, clause_at-placed, Ascending-placed, kept, clause_at-left_by,
  Ascending-left_by,
}
use packets.Policy.Decision.{hit, FirstOf, decided-FirstOf}

pub data MapCall (Pattern : Type 0) (Edits : Type 0) : Type 0 where
  add_one : RouteMapClause Pattern Edits → MapCall Pattern Edits
  remove_one : ℕ → MapCall Pattern Edits
  clear_all : MapCall Pattern Edits
  apply_to : Prefix → Option PathAttrs → MapCall Pattern Edits

module _ {Pattern : Type 0} {Edits : Type 0} where
  -- The clauses by their sequence numbers, and how the calls change them.
  abbrev pub replay_call :
      MapCall Pattern Edits
      → (ℕ → Option (RouteMapClause Pattern Edits))
      → ℕ
      → Option (RouteMapClause Pattern Edits)
  replay_call (add_one c) f k = if eqb c.seq k then some (body c) else f k
  replay_call (remove_one seq) f k = if eqb seq k then none else f k
  replay_call clear_all f k = none
  replay_call (apply_to prefix attrs) f k = f k

  abbrev pub replay :
      List (MapCall Pattern Edits)
      → (ℕ → Option (RouteMapClause Pattern Edits))
      → ℕ
      → Option (RouteMapClause Pattern Edits)
  replay [] f = f
  replay (c ∷ calls) f = replay calls (replay_call c f)

  -- In order, with these clauses, and each application counted once.
  abbrev pub Reads : RouteMap Pattern Edits → (ℕ → Option (RouteMapClause Pattern Edits)) → Type 0
  Reads m f =
      Ascending m.clauses
      × ((k : ℕ) → clause_at k m.clauses ≡ f k)
      × (m.applied ≡ m.permitted + m.denied + m.unmatched)

  clause_at-hit :
      (k : ℕ) (front rest : List (RouteMapClause Pattern Edits)) (c : RouteMapClause Pattern Edits)
      → clause_at k (front ++ hit c ∷ rest) ≡ clause_at k (front ++ c ∷ rest)
  clause_at-hit k [] rest c = refl
  clause_at-hit k (e ∷ front) rest c =
      ap (λ o. if eqb e.seq k then some (body e) else o) (clause_at-hit k front rest c)

  Later-hit :
      (k : ℕ) (front rest : List (RouteMapClause Pattern Edits)) (c : RouteMapClause Pattern Edits)
      → All (Later k) (front ++ c ∷ rest)
      → All (Later k) (front ++ hit c ∷ rest)
  Later-hit k [] rest c all = all
  Later-hit k (e ∷ front) rest c all = (all.0, Later-hit k front rest c all.1)

  Ascending-hit :
      (front rest : List (RouteMapClause Pattern Edits)) (c : RouteMapClause Pattern Edits)
      → Ascending (front ++ c ∷ rest)
      → Ascending (front ++ hit c ∷ rest)
  Ascending-hit [] rest c up = up
  Ascending-hit (e ∷ front) rest c (later, up) =
      (Later-hit e.seq front rest c later, Ascending-hit front rest c up)

  -- One more application than is counted below.
  abbrev Uncounted :
      RouteMap Pattern Edits
      → (ℕ → Option (RouteMapClause Pattern Edits))
      → List (RouteMapClause Pattern Edits)
      → Type 0
  Uncounted m f clauses =
      Ascending clauses
      × ((k : ℕ) → clause_at k clauses ≡ f k)
      × (m.applied ≡ m.permitted + m.denied + m.unmatched + 1)

  by_action-Reads :
      (a : Action) (m : RouteMap Pattern Edits) (c : RouteMapClause Pattern Edits)
      (f : ℕ → Option (RouteMapClause Pattern Edits))
      → Uncounted m f m.clauses
      → Reads (by_action a m c).0 f
  by_action-Reads permit m c f (up, reads, n) = (up, reads, omega arith)
  by_action-Reads deny m c f (up, reads, n) = (up, reads, omega arith)

  module _ (search : Pattern → String → Bool) where
    settle-Reads :
        (prefix : Prefix) (attrs : Option PathAttrs) (m : RouteMap Pattern Edits)
        (o : Option (RouteMapClause Pattern Edits × List (RouteMapClause Pattern Edits)))
        (f : ℕ → Option (RouteMapClause Pattern Edits))
        → Uncounted m f m.clauses
        → FirstOf search m.resolver prefix attrs m.clauses o
        → Reads (settle m o).0 f
    settle-Reads prefix attrs m none f (up, reads, n) h = (up, reads, omega arith)
    settle-Reads prefix attrs m (some (c, left)) f (up, reads, n) (front, rest, x, y, all, fires) =
        by_action-Reads c.action (record m { clauses = left }) c f
          (
            subst Ascending (sym y) (Ascending-hit front rest c (subst Ascending x up)),
            (λ k.
                ap (clause_at k) y
                ∙ clause_at-hit k front rest c
                ∙ ap (clause_at k) (sym x)
                ∙ reads k),
            n,
          )

    abbrev pub call : MapCall Pattern Edits → RouteMap Pattern Edits → RouteMap Pattern Edits
    call (add_one c) m = add_clause m c
    call (remove_one seq) m = (remove_clause m seq).0
    call clear_all m = (clear m).0
    call (apply_to prefix attrs) m = (apply search m prefix attrs).0

    abbrev pub run : List (MapCall Pattern Edits) → RouteMap Pattern Edits → RouteMap Pattern Edits
    run [] m = m
    run (c ∷ calls) m = run calls (call c m)

    remove-Reads :
        (m : RouteMap Pattern Edits) (o : Option (List (RouteMapClause Pattern Edits)))
        (f : ℕ → Option (RouteMapClause Pattern Edits))
        → Ascending (kept m.clauses o)
        → ((k : ℕ) → clause_at k (kept m.clauses o) ≡ f k)
        → (m.applied ≡ m.permitted + m.denied + m.unmatched)
        → Reads (settle_remove m o).0 f
    remove-Reads m none f up reads n = (up, reads, n)
    remove-Reads m (some left) f up reads n = (up, reads, n)

    call-Reads :
        (c : MapCall Pattern Edits) (m : RouteMap Pattern Edits)
        (f : ℕ → Option (RouteMapClause Pattern Edits))
        → Reads m f
        → Reads (call c m) (replay_call c f)
    call-Reads (add_one c) m f (up, reads, n) = (
      Ascending-placed c m.clauses up,
      (λ k.
          clause_at-placed k c m.clauses
          ∙ ap (λ o. if eqb c.seq k then some (body c) else o) (reads k)),
      n,
    )
    call-Reads (remove_one seq) m f (up, reads, n) =
        remove-Reads m (removed seq m.clauses) (replay_call (remove_one seq) f)
          (Ascending-left_by seq m.clauses up)
          (λ k.
            clause_at-left_by k seq m.clauses up
            ∙ ap (λ o. if eqb seq k then none else o) (reads k))
          n
    call-Reads clear_all m f (up, reads, n) = (tt, (λ k. refl), n)
    call-Reads (apply_to prefix attrs) m f (up, reads, n) =
        settle-Reads prefix attrs (record m { applied = m.applied + 1 })
          (decided search m.resolver prefix attrs m.clauses) f (up, reads, omega arith)
          (decided-FirstOf search m.resolver prefix attrs m.clauses)

    run-Reads :
        (calls : List (MapCall Pattern Edits)) (m : RouteMap Pattern Edits)
        (f : ℕ → Option (RouteMapClause Pattern Edits))
        → Reads m f
        → Reads (run calls m) (replay calls f)
    run-Reads [] m f h = h
    run-Reads (c ∷ calls) m f h = run-Reads calls (call c m) (replay_call c f) (call-Reads c m f h)

    -- After any calls on a new route map its clauses stand in ascending order of their sequence numbers;
    -- under each number stands the last clause added that was not removed since; and the applications are
    -- those permitted, denied and not matched.
    pub run-new-Reads :
        (name : String) (resolver : Option Resolver) (calls : List (MapCall Pattern Edits))
        → Reads (run calls (new name resolver)) (replay calls (λ k. none))
    run-new-Reads name resolver calls =
        run-Reads calls (new name resolver) (λ k. none) (tt, (λ k. refl), refl)
