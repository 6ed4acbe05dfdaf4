-- ===== src/Rib/RouteTable/Passes.antt =====
-- packets/routing/rtengine/rib/table.pyx: `reselect` keeps the candidates and settles what it takes
-- from the queue.
use packets.Base.{
  ℕ, ◌+◌, Bool, true, false, ◌&&◌, ◌||◌, Option, none, some, List, [], ◌∷◌, ◌++◌, ◌≡◌, ◌≢◌, refl,
  sym, ap, ◌∙◌, Bool-cases, inl, inr, arith, eqb, ltb, eqb_iff, list_key, bool_key,
}
use mathlib.Core.Path.{subst}
use mathlib.Core.List.{mem_of_ne_of_mem}
use packets.Rib.Route.{Prefix, Route, Dest}
use packets.Rib.Trie.Bits.{Bits}
use packets.Rib.Trie.Node.{node_exact}
use packets.Rib.Trie.Ops.{Trie, take_out}
use packets.Rib.Trie.Ops
use packets.Rib.Trie.Valid.{take_out-IsValid, exact-take_out_at}
use packets.Rib.Trie.Laws.{take_out-afi}
use packets.Rib.RouteTable.Select.{select, select_from, same_object}
use packets.Rib.RouteTable.Ops.{
  RouteTable, write, key, decide, gone, is_none, is_empty, select_at, drain, reselect,
}
use packets.Rib.RouteTable.State.{
  look, routes_of, Fits, FitsWith, EntryFits, Waits, Settled, write-FitsWith, routes-write,
  at_or_else,
}

same_object_refl : (o : Option Route) → same_object o o ≡ true
same_object_refl none = refl
same_object_refl (some r) = ground arith

-- After `_select` a destination has the routes that it had, is not marked, and its best route is
-- what selection chooses.
pub record Decided (d : Dest) (r : ℕ × Dest) : Type 0 where
  pub same_prefix : r.1.prefix ≡ d.prefix
  pub same_routes : r.1.routes ≡ d.routes
  pub unmarked : r.1.queued ≡ false
  pub chosen : same_object (select r.1.routes) r.1.best ≡ true

pub decide_lem : (version : ℕ) (d : Dest) → Decided d (decide version d)
decide_lem version d = elim (Bool-cases (same_object (select d.routes) d.best)) [
  | inl same ↦
      rw same (record { same_prefix = refl; same_routes = refl; unmarked = refl; chosen = same })
  | inr other ↦ rw other (record {
    same_prefix = refl;
    same_routes = refl;
    unmarked = refl;
    chosen = same_object_refl (select d.routes);
  })
]

and_false : (b : Bool) → (b && false) ≡ false
and_false true = refl
and_false false = refl

pub gone-is_empty :
    (d : Dest) (routes : List Route) → d.routes ≡ routes → (gone d ≡ is_empty routes)
unfolding select_from
gone-is_empty d [] e = rw e
gone-is_empty d (r ∷ routes) e = rw e (and_false (is_none (select (r ∷ routes))))

pub is_empty-cases : (routes : List Route) → is_empty routes ≡ true → routes ≡ []
is_empty-cases [] e = refl
is_empty-cases (r ∷ routes) e = absurd (ground arith)

-- What a pass keeps: everything but the head of the queue fits as before.
abbrev pub Keeps : List Bits → RouteTable → RouteTable → Type 0
Keeps queue t s =
    FitsWith queue s × (s.afi ≡ t.afi) × ((p : Bits) → routes_of (look s p) ≡ routes_of (look t p))

Waits-tail :
    (k : Bits) (queue : List Bits) (d : Dest) (b : Bool)
    → d.prefix.bits ≢ k
    → Waits (k ∷ queue) d b
    → Waits queue d b
Waits-tail k queue d true ne w = mem_of_ne_of_mem ne w
Waits-tail k queue d false ne w = w

EntryFits-tail :
    (afi : ℕ) (k : Bits) (queue : List Bits) (p : Bits) (o : Option Dest)
    → p ≢ k
    → EntryFits afi (k ∷ queue) p o
    → EntryFits afi queue p o
EntryFits-tail afi k queue p none ne h = tt
EntryFits-tail afi k queue p (some d) ne (home, family, w) =
    (home, family, Waits-tail k queue d d.queued (subst (λ b. b ≢ k) (sym home) ne) w)

pub remove_lem :
    (tr : Trie Dest) (p : Prefix)
    → p.afi ≡ tr.afi
    → (Ops.remove tr (key p)).0 ≡ (take_out tr p.bits (node_exact tr.root p.bits)).0
unfolding Ops.remove
remove_lem tr p e = let same = (eqb_iff p.afi tr.afi).1 e in rw same

-- A destination without routes is taken out.
taken_out-Keeps :
    (k : Bits) (queue : List Bits) (t : RouteTable) (version : ℕ)
    → FitsWith (k ∷ queue) t
    → routes_of (look t k) ≡ []
    → Keeps queue t (record t { version = version; trie = (take_out t.trie k (look t k)).0 })
taken_out-Keeps k queue t version h empty =
    let read = λ (p : Bits). exact-take_out_at t.trie k p (look t k) refl h.valid.under in
    (
      record {
        valid = take_out-IsValid t.trie k (look t k) refl h.valid;
        family = take_out-afi t.trie k (look t k) ∙ h.family;
        entries = λ p. subst (EntryFits t.afi queue p) (sym (read p)) (
            at_or_else (EntryFits t.afi queue) p k none (look t p) tt
              (λ ne. EntryFits-tail t.afi k queue p (look t p) ne (h.entries p)));
      },
      refl,
      λ p.
          ap routes_of (read p)
          ∙ at_or_else (λ p o. routes_of o ≡ routes_of (look t p)) p k none (look t p) (sym empty)
              (λ ne. refl),
    )

-- A destination with routes is written back, settled.
Settled-Keeps :
    (k : Bits) (queue : List Bits) (t : RouteTable) (version : ℕ) (d d' : Dest)
    → FitsWith (k ∷ queue) t
    → look t k ≡ some d
    → d'.prefix ≡ d.prefix
    → d'.routes ≡ d.routes
    → d'.queued ≡ false
    → Settled d'
    → Keeps queue t (write (record t { version = version }) d')
unfolding write
Settled-Keeps k queue t version d d' h e prefix routes unmarked settled =
    let (home, family, w) = subst (EntryFits t.afi (k ∷ queue) k) e (h.entries k) in
    let here = ap (λ p. p.bits) prefix ∙ home in
    (
      write-FitsWith queue (record t { version = version }) d' h.valid h.family
          (λ p ne.
            EntryFits-tail t.afi k queue p (look t p) (subst (λ q. p ≢ q) here ne) (h.entries p))
          (refl, ap (λ p. p.afi) prefix ∙ family, subst (Waits queue d') (sym unmarked) settled),
      refl,
      λ p.
          routes-write (record t { version = version }) d' p
          ∙ at_or_else (λ p l. l ≡ routes_of (look t p)) p d'.prefix.bits d'.routes
              (routes_of (look t p))
              (routes ∙ sym (ap routes_of e) ∙ ap (λ k. routes_of (look t k)) (sym here))
              (λ ne. refl),
    )

pub found-Keeps :
    (k : Bits) (queue : List Bits) (t : RouteTable) (o : Option Dest)
    → look t k ≡ o
    → FitsWith (k ∷ queue) t
    → Keeps queue t (select_at t o).0
found-Keeps k queue t none e h =
    let read = λ (p : Bits). at_or_else (λ p o. look t p ≡ o) p k none (look t p) e (λ ne. refl) in
    (
      record {
        valid = h.valid;
        family = h.family;
        entries = λ p. subst (EntryFits t.afi queue p) (sym (read p)) (
            at_or_else (EntryFits t.afi queue) p k none (look t p) tt
              (λ ne. EntryFits-tail t.afi k queue p (look t p) ne (h.entries p)));
      },
      refl,
      λ p. refl,
    )
found-Keeps k queue t (some d) e h =
    let (home, family, w) = subst (EntryFits t.afi (k ∷ queue) k) e (h.entries k) in
    let made = decide_lem t.version d in
    let version = (decide t.version d).0 in
    elim (Bool-cases (gone d)) [
      | inl g ↦
          let empty = is_empty-cases d.routes (sym (gone-is_empty d d.routes refl) ∙ g) in
          let trie =
            remove_lem t.trie d.prefix (family ∙ sym h.family)
            ∙ ap (λ k. (take_out t.trie k (look t k)).0) home in
          rw g (
            subst (λ trie. Keeps queue t (record t { version = version; trie = trie })) (sym trie)
              (taken_out-Keeps k queue t version h (ap routes_of e ∙ empty)))
      | inr g ↦ rw g (
          Settled-Keeps k queue t version d (decide t.version d).1 h e made.same_prefix
            made.same_routes made.unmarked
            (ap is_empty made.same_routes ∙ sym (gone-is_empty d d.routes refl) ∙ g, made.chosen))
    ]

Keeps-trans :
    (queue : List Bits) (t s u : RouteTable)
    → Keeps queue t s
    → Fits u × (u.afi ≡ s.afi) × ((p : Bits) → routes_of (look u p) ≡ routes_of (look s p))
    → Fits u × (u.afi ≡ t.afi) × ((p : Bits) → routes_of (look u p) ≡ routes_of (look t p))
Keeps-trans queue t s u (f, a, r) (g, b, r') = (g, b ∙ a, λ p. r' p ∙ r p)

-- The loop keeps the invariant and the candidates, wherever the limit stops it.
drain_lem :
    (limit done : ℕ) (queue : List Bits) (t : RouteTable) (changed : List Dest)
    → FitsWith queue t
    → let s = (drain limit done queue t changed).0 in
      Fits s × (s.afi ≡ t.afi) × ((p : Bits) → routes_of (look s p) ≡ routes_of (look t p))
unfolding drain
drain_lem limit done [] t changed h =
    (record { valid = h.valid; family = h.family; entries = h.entries }, refl, λ p. refl)
drain_lem limit done (k ∷ queue) t changed h =
    let next = select_at t (look t k) in
    let one = found-Keeps k queue t (look t k) refl h in
    elim (Bool-cases (eqb limit 0 || ltb done limit)) [
      | inl on ↦ rw on (
          Keeps-trans queue t next.0 _ one
            (drain_lem limit (done + 1) queue next.0 (changed ++ next.1) one.0))
      | inr off ↦
          rw off
            (record { valid = h.valid; family = h.family; entries = h.entries }, refl, λ p. refl)
    ]

pub reselect_lem :
    (limit : ℕ) (t : RouteTable)
    → Fits t
    → let s = (reselect limit t).0 in
      Fits s × (s.afi ≡ t.afi) × ((p : Bits) → routes_of (look s p) ≡ routes_of (look t p))
unfolding reselect
reselect_lem limit t h = drain_lem limit 0 t.queue t [] h

drained :
    (done : ℕ) (queue : List Bits) (t : RouteTable) (changed : List Dest)
    → (drain 0 done queue t changed).0.queue ≡ []
unfolding drain
drained done [] t changed = refl
drained done (k ∷ queue) t changed =
    let next = select_at t (look t k) in drained (done + 1) queue next.0 (changed ++ next.1)

-- A pass without a limit empties the queue.
pub queue-reselect : (t : RouteTable) → (reselect 0 t).0.queue ≡ []
unfolding reselect
queue-reselect t = drained 0 t.queue t []
