-- ===== src/Rib/RouteTable/Best.antt =====
-- packets/routing/rtengine/rib/table.pyx: what `Dest._select` chooses.
use packets.Base.{
  true, false, Option, none, some, List, [], ◌∷◌, ◌++◌, append_assoc, append-nil, ◌≡◌, refl, sym,
  ap, ◌∙◌, if◌then◌else◌, Bool-cases, inl, inr, arith, All, All-append,
}
use mathlib.Core.Path.{subst}
use packets.Rib.Route.{Route}
use packets.Rib.RouteTable.Select.{route_cmp, is_before, preferred, select_from, select}

before_trans :
    (a b c : Route)
    → is_before (route_cmp a b) ≡ true
    → is_before (route_cmp b c) ≡ true
    → is_before (route_cmp a c) ≡ true
unfolding route_cmp
before_trans a b c ab bc = ground arith

-- What beats a route beats whatever does not beat that one.
before_unbeaten :
    (a b c : Route)
    → is_before (route_cmp a b) ≡ true
    → is_before (route_cmp c b) ≡ false
    → is_before (route_cmp a c) ≡ true
unfolding route_cmp
before_unbeaten a b c ab cb = ground arith

abbrev pub Beats : Route → Route → Type 0
Beats best x = is_before (route_cmp best x) ≡ true

abbrev pub Holds : Route → Route → Type 0
Holds best x = is_before (route_cmp x best) ≡ false

-- The first of the best: it beats every route before it, and none after it beats it.
abbrev pub Chosen : List Route → Option Route → Type 0
Chosen routes none = routes ≡ []
Chosen routes (some best) =
    (front : List Route) × (rest : List Route) × (routes ≡ front ++ best ∷ rest)
    × All (Beats best) front
    × All (Holds best) rest

Beats-front :
    (r b : Route) (front : List Route) → Beats r b → All (Beats b) front → All (Beats r) front
Beats-front r b [] h all = tt
Beats-front r b (x ∷ front) h all = (before_trans r b x h all.0, Beats-front r b front h all.1)

Beats-rest : (r b : Route) (rest : List Route) → Beats r b → All (Holds b) rest → All (Beats r) rest
Beats-rest r b [] h all = tt
Beats-rest r b (x ∷ rest) h all = (before_unbeaten r b x h all.0, Beats-rest r b rest h all.1)

Chosen-next :
    (seen : List Route) (o : Option Route) (r : Route)
    → Chosen seen o
    → Chosen (seen ++ r ∷ []) (if preferred r o then some r else o)
Chosen-next seen none r e = ([], [], ap (λ l. l ++ r ∷ []) e, tt, tt)
Chosen-next seen (some b) r (front, rest, e, win, hold) = elim (Bool-cases (preferred r (some b))) [
  | inl wins ↦ rw wins (
    seen,
    [],
    refl,
    subst (All (Beats r)) (sym e) (
        All-append (Beats r) front (b ∷ rest) (Beats-front r b front wins win)
          (wins, Beats-rest r b rest wins hold)),
    tt,
  )
  | inr loses ↦ rw loses (
    front,
    rest ++ r ∷ [],
    ap (λ l. l ++ r ∷ []) e ∙ append_assoc front (b ∷ rest) (r ∷ []),
    win,
    All-append (Holds b) rest (r ∷ []) hold (loses, tt),
  )
]

select_from-Chosen :
    (seen : List Route) (o : Option Route) (routes : List Route)
    → Chosen seen o
    → Chosen (seen ++ routes) (select_from o routes)
unfolding select_from
select_from-Chosen seen o [] h = subst (λ l. Chosen l o) (sym (append-nil seen)) h
select_from-Chosen seen o (r ∷ routes) h =
    let next = if preferred r o then some r else o in
    subst (λ l. Chosen l (select_from next routes)) (append_assoc seen (r ∷ []) routes)
      (select_from-Chosen (seen ++ r ∷ []) next routes (Chosen-next seen o r h))

-- Selection takes the first of the best routes: it is preferred to each candidate before it, none
-- after it is preferred to it, and there is none only without candidates.
pub select-Chosen : (routes : List Route) → Chosen routes (select routes)
select-Chosen routes = select_from-Chosen [] none routes refl
