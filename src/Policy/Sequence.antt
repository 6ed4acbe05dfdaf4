-- ===== src/Policy/Sequence.antt =====
-- packets/routing/rtengine/policy/routemap.py: the clauses of a route map through any calls.
use packets.Base.{
  ℕ, ◌<◌, Bool, true, false, Option, none, some, List, [], ◌∷◌, ◌≡◌, refl, sym, ap, ◌∙◌,
  if◌then◌else◌, eqb, ltb, Bool-cases, inl, inr, All, arith,
}
use mathlib.Core.Path.{subst}
use packets.Policy.RouteMap.{RouteMapClause, placed, past_removed, removed}

module _ {Pattern : Type 0} {Edits : Type 0} where
  -- A clause but for the count of its hits
  abbrev pub body : RouteMapClause Pattern Edits → RouteMapClause Pattern Edits
  body c = record c { hits = 0 }

  abbrev pub clause_at :
      ℕ → List (RouteMapClause Pattern Edits) → Option (RouteMapClause Pattern Edits)
  clause_at k [] = none
  clause_at k (c ∷ clauses) = if eqb c.seq k then some (body c) else clause_at k clauses

  abbrev pub Later : ℕ → RouteMapClause Pattern Edits → Type 0
  Later k c = k < c.seq

  abbrev pub Ascending : List (RouteMapClause Pattern Edits) → Type 0
  Ascending [] = Unit
  Ascending (c ∷ clauses) = All (Later c.seq) clauses × Ascending clauses

  Later-trans :
      (j k : ℕ) (clauses : List (RouteMapClause Pattern Edits))
      → j < k
      → All (Later k) clauses
      → All (Later j) clauses
  Later-trans j k [] lt all = tt
  Later-trans j k (c ∷ clauses) lt all =
      let x = all.0 in (omega arith, Later-trans j k clauses lt all.1)

  pub clause_at-placed :
      (k : ℕ) (c : RouteMapClause Pattern Edits) (clauses : List (RouteMapClause Pattern Edits))
      → clause_at k (placed c clauses)
        ≡ (if eqb c.seq k then some (body c) else clause_at k clauses)
  unfolding placed
  clause_at-placed k c [] = refl
  clause_at-placed k c (e ∷ clauses) = ground (arith, clause_at-placed k c clauses)

  Later-placed :
      (k : ℕ) (c : RouteMapClause Pattern Edits) (clauses : List (RouteMapClause Pattern Edits))
      → k < c.seq
      → All (Later k) clauses
      → All (Later k) (placed c clauses)
  unfolding placed
  Later-placed k c [] lt all = (lt, tt)
  Later-placed k c (e ∷ clauses) lt all = elim (Bool-cases (eqb e.seq c.seq)) [
    | inl same ↦ rw same (lt, all.1)
    | inr other ↦ rw other (elim (Bool-cases (ltb c.seq e.seq)) [
      | inl here ↦ rw here (lt, all)
      | inr further ↦ rw further (all.0, Later-placed k c clauses lt all.1)
    ])
  ]

  pub Ascending-placed :
      (c : RouteMapClause Pattern Edits) (clauses : List (RouteMapClause Pattern Edits))
      → Ascending clauses
      → Ascending (placed c clauses)
  unfolding placed
  Ascending-placed c [] up = (tt, tt)
  Ascending-placed c (e ∷ clauses) (later, up) = elim (Bool-cases (eqb e.seq c.seq)) [
    | inl same ↦ rw same (subst (λ k. All (Later k) clauses) (ground arith) later, up)
    | inr other ↦ rw other (elim (Bool-cases (ltb c.seq e.seq)) [
      | inl here ↦
          rw here
            ((ground arith, Later-trans c.seq e.seq clauses (ground arith) later), (later, up))
      | inr further ↦
          rw further
            (Later-placed e.seq c clauses (ground arith) later, Ascending-placed c clauses up)
    ])
  ]

  -- The clauses after `remove_clause`
  abbrev pub kept :
      List (RouteMapClause Pattern Edits)
      → Option (List (RouteMapClause Pattern Edits))
      → List (RouteMapClause Pattern Edits)
  kept clauses none = clauses
  kept clauses (some left) = left

  kept-past :
      (c : RouteMapClause Pattern Edits) (clauses : List (RouteMapClause Pattern Edits)) (b : Bool)
      (o : Option (List (RouteMapClause Pattern Edits)))
      → kept (c ∷ clauses) (if b then some clauses else past_removed c o)
        ≡ (if b then clauses else c ∷ kept clauses o)
  kept-past c clauses true o = refl
  kept-past c clauses false none = refl
  kept-past c clauses false (some left) = refl

  abbrev pub left_by : ℕ → List (RouteMapClause Pattern Edits) → List (RouteMapClause Pattern Edits)
  left_by seq clauses = kept clauses (removed seq clauses)

  left_by-cons :
      (seq : ℕ) (c : RouteMapClause Pattern Edits) (clauses : List (RouteMapClause Pattern Edits))
      → left_by seq (c ∷ clauses) ≡ (if eqb c.seq seq then clauses else c ∷ left_by seq clauses)
  unfolding removed
  left_by-cons seq c clauses = kept-past c clauses (eqb c.seq seq) (removed seq clauses)

  clause_at-Later :
      (k : ℕ) (clauses : List (RouteMapClause Pattern Edits))
      → All (Later k) clauses
      → clause_at k clauses ≡ none
  clause_at-Later k [] all = refl
  clause_at-Later k (c ∷ clauses) all =
      let x = all.0 in
      let e : eqb c.seq k ≡ false = ground arith in rw e (clause_at-Later k clauses all.1)

  pub clause_at-left_by :
      (k seq : ℕ) (clauses : List (RouteMapClause Pattern Edits))
      → Ascending clauses
      → clause_at k (left_by seq clauses) ≡ (if eqb seq k then none else clause_at k clauses)
  unfolding removed
  clause_at-left_by k seq [] up = ground arith
  clause_at-left_by k seq (c ∷ clauses) (later, up) =
      ap (clause_at k) (left_by-cons seq c clauses) ∙ elim (Bool-cases (eqb c.seq seq)) [
        | inl same ↦ rw same (elim (Bool-cases (eqb seq k)) [
          | inl own ↦
              rw own
                (ap (λ j. clause_at j clauses) (ground arith) ∙ clause_at-Later c.seq clauses later)
          | inr apart ↦ ground arith
        ])
        | inr other ↦ rw other (ground (arith, clause_at-left_by k seq clauses up))
      ]

  Later-left_by :
      (k seq : ℕ) (clauses : List (RouteMapClause Pattern Edits))
      → All (Later k) clauses
      → All (Later k) (left_by seq clauses)
  unfolding removed
  Later-left_by k seq [] all = tt
  Later-left_by k seq (c ∷ clauses) all =
      subst (All (Later k)) (sym (left_by-cons seq c clauses)) (elim (Bool-cases (eqb c.seq seq)) [
        | inl same ↦ rw same all.1
        | inr other ↦ rw other (all.0, Later-left_by k seq clauses all.1)
      ])

  pub Ascending-left_by :
      (seq : ℕ) (clauses : List (RouteMapClause Pattern Edits))
      → Ascending clauses
      → Ascending (left_by seq clauses)
  unfolding removed
  Ascending-left_by seq [] up = tt
  Ascending-left_by seq (c ∷ clauses) (later, up) =
      subst Ascending (sym (left_by-cons seq c clauses)) (elim (Bool-cases (eqb c.seq seq)) [
        | inl same ↦ rw same up
        | inr other ↦
            rw other (Later-left_by c.seq seq clauses later, Ascending-left_by seq clauses up)
      ])
