-- ===== src/Rib/RouteTable/Offers.antt =====
-- packets/routing/rtengine/rib/table.pyx: `offer`, `retract` and `dest` change the candidates of
-- one prefix.
use packets.Base.{
  ℕ, ◌+◌, ◌-◌, Bool, true, false, ◌&&◌, Option, none, some, List, [], ◌∷◌, ◌++◌, ◌≡◌, refl, ap, ◌∙◌,
  if◌then◌else◌, Bool-cases, inl, inr, arith, ◌==◌, eqb, list_key, bool_key,
}
use mathlib.Core.Path.{subst}
use mathlib.Core.List.{Mem}
use packets.Rib.Route.{Route, Dest}
use packets.Rib.Trie.Bits.{Bits}
use packets.Rib.RouteTable.Select.{
  same_origin, same_content, Place, kept, replaced, absent, place, past, removed, past_removed,
}
use packets.Rib.RouteTable.Ops.{RouteTable, enqueue, settle, take_away}
use packets.Rib.RouteTable.State.{look, routes_of, Fits, EntryFits, Waits, Writes, enqueue_lem}

-- The candidates after an offer: it takes the place of the one from its origin, if that one has
-- other contents, or else it comes last.
abbrev pub add : Route → List Route → List Route
add r [] = r ∷ []
add r (x ∷ routes) =
    let rest = add r routes in
    if same_origin x r then (if same_content x r then x else r) ∷ routes else x ∷ rest

-- The candidates without the first one from an origin.
abbrev pub without : ℕ → ℕ → List Route → List Route
without protocol source [] = []
without protocol source (x ∷ routes) =
    let rest = without protocol source routes in
    if eqb x.protocol protocol && eqb x.source source then routes else x ∷ rest

abbrev pub placed : Route → List Route → Place → List Route
placed r routes kept = routes
placed r routes (replaced routes') = routes'
placed r routes absent = routes ++ r ∷ []

placed-past :
    (r x : Route) (routes : List Route) (o : Place)
    → placed r (x ∷ routes) (past x o) ≡ x ∷ placed r routes o
placed-past r x routes kept = refl
placed-past r x routes (replaced routes') = refl
placed-past r x routes absent = refl

pub placed-place :
    (r : Route) (routes : List Route) → placed r routes (place r routes) ≡ add r routes
unfolding place
placed-place r [] = refl
placed-place r (x ∷ routes) = elim (Bool-cases (same_origin x r)) [
  | inl same ↦ rw same (elim (Bool-cases (same_content x r)) [ inl e ↦ rw e | inr e ↦ rw e ])
  | inr other ↦
      rw other (placed-past r x routes (place r routes) ∙ ap (λ l. x ∷ l) (placed-place r routes))
]

abbrev pub left : List Route → Option (List Route) → List Route
left routes none = routes
left routes (some routes') = routes'

left-past :
    (x : Route) (routes : List Route) (o : Option (List Route))
    → left (x ∷ routes) (past_removed x o) ≡ x ∷ left routes o
left-past x routes none = refl
left-past x routes (some routes') = refl

pub left-removed :
    (protocol source : ℕ) (routes : List Route)
    → left routes (removed protocol source routes) ≡ without protocol source routes
unfolding removed
left-removed protocol source [] = refl
left-removed protocol source (x ∷ routes) =
    elim (Bool-cases (eqb x.protocol protocol && eqb x.source source)) [
      | inl same ↦ rw same
      | inr other ↦ rw other (
          left-past x routes (removed protocol source routes)
          ∙ ap (λ l. x ∷ l) (left-removed protocol source routes))
    ]

-- A destination that is found stands under its prefix and, if it is marked, waits.
entry-at :
    (t : RouteTable) (p : Bits) (d : Dest)
    → Fits t
    → look t p ≡ some d
    → EntryFits t.afi t.queue p (some d)
entry-at t p d h e = subst (EntryFits t.afi t.queue p) e (h.entries p)

queued-Mem :
    (queue : List Bits) (d : Dest) (b : Bool) → Waits queue d b → b ≡ true → Mem d.prefix.bits queue
queued-Mem queue d true w e = w
queued-Mem queue d false w e = absurd (ground arith)

-- Writing the routes that an entry has changes nothing.
pub same-Writes : (t : RouteTable) (q : Bits) → Fits t → Writes t q (routes_of (look t q)) t
same-Writes t q h = (
  h,
  refl,
  λ p. elim (Bool-cases (p == q)) [
    | inl e ↦ rw e (ap (λ p. routes_of (look t p)) ((list_key.same_iff p q).0 e))
    | inr e ↦ rw e
  ],
)

pub Writes-routes :
    (t s : RouteTable) (q : Bits) (r r' : List Route) → r ≡ r' → Writes t q r s → Writes t q r' s
Writes-routes t s q r r' e w = subst (λ r. Writes t q r s) e w

-- The routes of a destination that is found, replaced; counters do not matter.
new_routes-Writes :
    (t : RouteTable) (count : ℕ) (q : Bits) (d : Dest) (routes : List Route)
    → Fits t
    → look t q ≡ some d
    → Writes t q routes (enqueue (record t { route_count = count }) (record d { routes = routes }))
new_routes-Writes t count q d routes h e =
    let (home, family, waits) = entry-at t q d h e in
    subst
      (λ q.
        Writes t q routes
          (enqueue (record t { route_count = count }) (record d { routes = routes })))
      home
      (enqueue_lem (record t { route_count = count }) (record d { routes = routes })
        (record { valid = h.valid; family = h.family; entries = h.entries }) family
        (λ marked. queued-Mem t.queue d d.queued waits marked))

pub settle-Writes :
    (t : RouteTable) (q : Bits) (d : Dest) (r : Route) (o : Place)
    → Fits t
    → look t q ≡ some d
    → Writes t q (placed r d.routes o) (settle t d r o).0
settle-Writes t q d r kept h e =
    Writes-routes t t q (routes_of (look t q)) d.routes (ap routes_of e) (same-Writes t q h)
settle-Writes t q d r (replaced routes) h e = new_routes-Writes t t.route_count q d routes h e
settle-Writes t q d r absent h e =
    new_routes-Writes t (t.route_count + 1) q d (d.routes ++ r ∷ []) h e

pub take_away-Writes :
    (t : RouteTable) (q : Bits) (d : Dest) (o : Option (List Route))
    → Fits t
    → look t q ≡ some d
    → Writes t q (left d.routes o) (take_away t d o).0
take_away-Writes t q d none h e =
    Writes-routes t t q (routes_of (look t q)) d.routes (ap routes_of e) (same-Writes t q h)
take_away-Writes t q d (some routes) h e = new_routes-Writes t (t.route_count - 1) q d routes h e
