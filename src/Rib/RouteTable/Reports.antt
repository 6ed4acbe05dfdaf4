-- ===== src/Rib/RouteTable/Reports.antt =====
-- packets/routing/rtengine/rib/table.pyx: the destinations that `reselect` returns.
use packets.Base.{
  ℕ, ◌+◌, Bool, true, false, not, ◌||◌, Option, none, some, List, [], ◌∷◌, ◌++◌, ◌≡◌, refl, sym, ap,
  ◌∙◌, if◌then◌else◌, Bool-cases, inl, inr, arith, ◌==◌, eqb, ltb, list_key, bool_key,
}
use mathlib.Core.Path.{subst}
use packets.Rib.Route.{Route, Dest}
use packets.Rib.Trie.Bits.{Bits}
use packets.Rib.Trie.Node.{node_exact}
use packets.Rib.Trie.Ops.{take_out}
use packets.Rib.Trie.Valid.{exact-take_out_at, exact-store}
use packets.Rib.RouteTable.Select.{select, select_from, same_object}
use packets.Rib.RouteTable.Ops.{RouteTable, write, decide, gone, select_at, drain, reselect}
use packets.Rib.RouteTable.State.{look, Fits, FitsWith, EntryFits, at_or_else}
use packets.Rib.RouteTable.Passes.{
  decide_lem, remove_lem, found-Keeps, gone-is_empty, is_empty-cases,
}

abbrev pub best_of : Option Dest → Option Route
best_of none = none
best_of (some d) = d.best

-- The last report for a prefix; `before` if there is none.
abbrev pub latest : Bits → List Dest → Option Route → Option Route
latest p [] before = before
latest p (d ∷ ds) before = latest p ds (if p == d.prefix.bits then d.best else before)

latest-append :
    (p : Bits) (ds es : List Dest) (before : Option Route)
    → latest p (ds ++ es) before ≡ latest p es (latest p ds before)
latest-append p [] es before = refl
latest-append p (d ∷ ds) es before =
    latest-append p ds es (if p == d.prefix.bits then d.best else before)

none-same_object :
    (winner best : Option Route) → winner ≡ none → same_object winner best ≡ true → best ≡ none
none-same_object winner none e same = refl
none-same_object winner (some best) e same =
    let bad = sym (ap (λ w. same_object w (some best)) e) ∙ same in absurd (ground arith)

select-nil : (routes : List Route) → routes ≡ [] → select routes ≡ none
unfolding select_from
select-nil routes e = ap select e

-- A destination that goes has no best route any more.
decide-gone : (version : ℕ) (d : Dest) → d.routes ≡ [] → (decide version d).1.best ≡ none
decide-gone version d e = elim (Bool-cases (same_object (select d.routes) d.best)) [
  | inl same ↦ rw same (none-same_object (select d.routes) d.best (select-nil d.routes e) same)
  | inr other ↦ rw other (select-nil d.routes e)
]

best_changed :
    (t : RouteTable) (k p : Bits) (o : Option Dest) (b : Option Route)
    → best_of o ≡ b
    → best_of (if p == k then o else look t p) ≡ (if p == k then b else best_of (look t p))
best_changed t k p o b e = elim (Bool-cases (p == k)) [
  | inl same ↦ rw same e
  | inr other ↦ rw other
]

-- The entry of the prefix has the best route that was decided on; the others are as they were.
best-select_at :
    (k : Bits) (queue : List Bits) (t : RouteTable) (d : Dest) (p : Bits)
    → FitsWith (k ∷ queue) t
    → look t k ≡ some d
    → best_of (look (select_at t (some d)).0 p)
      ≡ (if p == k then (decide t.version d).1.best else best_of (look t p))
unfolding write
best-select_at k queue t d p h e =
    let (home, family, w) = subst (EntryFits t.afi (k ∷ queue) k) e (h.entries k) in
    let d' = (decide t.version d).1 in
    let here = ap (λ p. p.bits) (decide_lem t.version d).same_prefix ∙ home in
    elim (Bool-cases (gone d)) [
      | inl g ↦
          let empty = is_empty-cases d.routes (sym (gone-is_empty d d.routes refl) ∙ g) in
          let trie =
            remove_lem t.trie d.prefix (family ∙ sym h.family)
            ∙ ap (λ k. (take_out t.trie k (look t k)).0) home in
          rw g (
            ap (λ tr. best_of (node_exact tr.root p)) trie
            ∙ ap best_of (exact-take_out_at t.trie k p (look t k) refl h.valid.under)
            ∙ best_changed t k p none d'.best (sym (decide-gone t.version d empty)))
      | inr g ↦ rw g (
          ap best_of (exact-store t.trie d'.prefix.bits p d')
          ∙ subst
              (λ q.
                best_of (if p == q then some d' else look t p)
                ≡ (if p == k then d'.best else best_of (look t p)))
              (sym here) (best_changed t k p (some d') d'.best refl))
    ]

reports-latest :
    (t : RouteTable) (k p : Bits) (d : Dest)
    → d.prefix.bits ≡ k
    → look t k ≡ some d
    → (if p == k then (decide t.version d).1.best else best_of (look t p))
      ≡ latest p (select_at t (some d)).1 (best_of (look t p))
reports-latest t k p d home e = elim (Bool-cases (gone d)) [
  | inl g ↦ rw g (reported (same_object (select d.routes) d.best) refl)
  | inr g ↦ rw g (reported (same_object (select d.routes) d.best) refl)
]
  where
    reported :
        (b : Bool)
        → same_object (select d.routes) d.best ≡ b
        → (if p == k then (decide t.version d).1.best else best_of (look t p))
          ≡ latest p (if not b then (decide t.version d).1 ∷ [] else []) (best_of (look t p))
    reported true same = rw same (
        at_or_else (λ p b. b ≡ best_of (look t p)) p k d.best (best_of (look t p))
          (sym (ap best_of e)) (λ ne. refl))
    reported false other = rw (other, home)

found-latest :
    (k : Bits) (queue : List Bits) (t : RouteTable) (o : Option Dest) (p : Bits)
    → look t k ≡ o
    → FitsWith (k ∷ queue) t
    → best_of (look (select_at t o).0 p) ≡ latest p (select_at t o).1 (best_of (look t p))
found-latest k queue t none p e h = refl
found-latest k queue t (some d) p e h =
    let (home, family, w) = subst (EntryFits t.afi (k ∷ queue) k) e (h.entries k) in
    best-select_at k queue t d p h e ∙ reports-latest t k p d home e

drain-latest :
    (limit done : ℕ) (queue : List Bits) (t : RouteTable) (changed : List Dest) (p : Bits)
    (before : Option Route)
    → FitsWith queue t
    → best_of (look t p) ≡ latest p changed before
    → let (s, reported) = drain limit done queue t changed in
      best_of (look s p) ≡ latest p reported before
unfolding drain
drain-latest limit done [] t changed p before h e = e
drain-latest limit done (k ∷ queue) t changed p before h e =
    let next = select_at t (look t k) in
    let one = found-Keeps k queue t (look t k) refl h in
    elim (Bool-cases (eqb limit 0 || ltb done limit)) [
      | inl on ↦ rw on (
          drain-latest limit (done + 1) queue next.0 (changed ++ next.1) p before one.0 (
            found-latest k queue t (look t k) p refl h
            ∙ ap (latest p next.1) e
            ∙ sym (latest-append p changed next.1 before)))
      | inr off ↦ rw off e
    ]

-- What a pass of any limit returns, of a table that fits, is all that it changed: the best route of
-- a prefix is the last that is reported for it, and what it was if none is.
pub best-reselect :
    (limit : ℕ) (t : RouteTable) (p : Bits)
    → Fits t
    → best_of (look (reselect limit t).0 p) ≡ latest p (reselect limit t).1 (best_of (look t p))
unfolding reselect
best-reselect limit t p h = drain-latest limit 0 t.queue t [] p (best_of (look t p)) h refl
