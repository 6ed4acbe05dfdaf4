-- ===== src/Rib/RouteTable/Calls.antt =====
-- packets/routing/rtengine/rib/table.pyx: the calls of a table, as changes of its candidates.
use packets.Base.{
  ℕ, true, false, ◌&&◌, none, some, List, [], ◌∷◌, ◌≡◌, refl, sym, ap, ◌∙◌, if◌then◌else◌,
  Bool-cases, inl, inr, arith, ◌==◌, eqb, list_key, bool_key,
}
use packets.Rib.Route.{Prefix, Route}
use packets.Rib.Trie.Bits.{Bits}
use packets.Rib.Trie.Ops.{Result, ok, raises}
use packets.Rib.Trie.Valid.{exact-store}
use packets.Rib.RouteTable.Ops.{RouteTable, write, dest, fresh, enqueue, offer, retract, reselect}
use packets.Rib.RouteTable.State.{look, routes_of, Fits, Writes, enqueue_lem}
use packets.Rib.RouteTable.Offers.{add, without, Writes-routes}

pub data TableOp : Type 0 where
  offer_route : Route → TableOp
  retract_route : Prefix → ℕ → ℕ → TableOp
  intern : Prefix → TableOp
  select_some : ℕ → TableOp

abbrev pub after : {A : Type 0} → RouteTable → Result (RouteTable × A) → RouteTable
after t (raises e) = t
after t (ok r) = r.0

abbrev pub apply : TableOp → RouteTable → RouteTable
apply (offer_route r) t = after t (offer t r)
apply (retract_route p protocol source) t = (retract t p protocol source).0
apply (intern p) t = after t (dest t p)
apply (select_some limit) t = (reselect limit t).0

abbrev pub run : List TableOp → RouteTable → RouteTable
run [] t = t
run (op ∷ ops) t = run ops (apply op t)

-- The candidates of each prefix of the family.
abbrev pub update : ℕ → Prefix → (List Route → List Route) → (Bits → List Route) → Bits → List Route
update afi q change f p = if eqb q.afi afi && p == q.bits then change (f p) else f p

abbrev pub replay_op : ℕ → TableOp → (Bits → List Route) → Bits → List Route
replay_op afi (offer_route r) f = update afi r.prefix (add r) f
replay_op afi (retract_route q protocol source) f = update afi q (without protocol source) f
replay_op afi (intern q) f = f
replay_op afi (select_some limit) f = f

abbrev pub replay : ℕ → List TableOp → (Bits → List Route) → Bits → List Route
replay afi [] f = f
replay afi (op ∷ ops) f = replay afi ops (replay_op afi op f)

-- A table that fits and has these candidates.
abbrev pub Reads : RouteTable → ℕ → (Bits → List Route) → Type 0
Reads s afi f = Fits s × (s.afi ≡ afi) × ((p : Bits) → routes_of (look s p) ≡ f p)

pub Reads-of-Writes :
    (t s : RouteTable) (q : Prefix) (change : List Route → List Route)
    → eqb q.afi t.afi ≡ true
    → Writes t q.bits (change (routes_of (look t q.bits))) s
    → Reads s t.afi (update t.afi q change (λ p. routes_of (look t p)))
Reads-of-Writes t s q change same (f, a, r) = (
  f,
  a,
  λ p.
      r p
      ∙ rw same (elim (Bool-cases (p == q.bits)) [
        | inl e ↦
            rw e (ap (λ p. change (routes_of (look t p))) (sym ((list_key.same_iff p q.bits).0 e)))
        | inr e ↦ rw e
      ]),
)

-- A prefix of another family leaves the table as it is.
pub Reads-other :
    (t : RouteTable) (q : Prefix) (change : List Route → List Route)
    → Fits t
    → eqb q.afi t.afi ≡ false
    → Reads t t.afi (update t.afi q change (λ p. routes_of (look t p)))
Reads-other t q change h other = (h, refl, λ p. rw other)

pub look-fresh :
    (t : RouteTable) (p : Prefix)
    → look (enqueue t (fresh p)) p.bits ≡ some (record (fresh p) { queued = true })
unfolding enqueue write
look-fresh t p =
    exact-store t.trie p.bits p.bits (record (fresh p) { queued = true })
    ∙ rw ((list_key.same_iff p.bits p.bits).1 refl)

pub fresh_lem :
    (t : RouteTable) (p : Prefix)
    → Fits t
    → p.afi ≡ t.afi
    → look t p.bits ≡ none
    → Writes t p.bits (routes_of (look t p.bits)) (enqueue t (fresh p))
fresh_lem t p h family e =
    Writes-routes t (enqueue t (fresh p)) p.bits [] (routes_of (look t p.bits))
      (sym (ap routes_of e)) (enqueue_lem t (fresh p) h family (λ marked. absurd (ground arith)))

pub Writes-trans :
    (t s u : RouteTable) (q : Bits) (r r' : List Route)
    → Writes t q r s
    → Writes s q r' u
    → Writes t q r' u
Writes-trans t s u q r r' (f, a, x) (g, b, y) =
    (g, b ∙ a, λ p. y p ∙ elim (Bool-cases (p == q)) [ inl e ↦ rw e | inr e ↦ rw e (x p ∙ rw e) ])
