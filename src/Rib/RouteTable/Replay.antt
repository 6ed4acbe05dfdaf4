-- ===== src/Rib/RouteTable/Replay.antt =====
-- packets/routing/rtengine/rib/table.pyx: any calls of a table, and the same calls on its candidates.
use packets.Base.{
  ℕ, Bool, true, false, not, ◌&&◌, Option, none, some, List, [], ◌∷◌, ◌≡◌, refl, sym, ap, ◌∙◌,
  if◌then◌else◌, Bool-cases, inl, inr, ◌==◌, eqb, eqb_iff, list_key, bool_key,
}
use mathlib.Core.Path.{subst}
use packets.Rib.Route.{Prefix, Route, Dest}
use packets.Rib.Trie.Bits.{Bits}
use packets.Rib.Trie.Ops.{Result, ok, raises, wrong_family}
use packets.Rib.Trie.Ops
use packets.Rib.RouteTable.Select.{place, removed}
use packets.Rib.RouteTable.Ops.{
  RouteTable, get, dest, or_fresh, fresh, enqueue, offer, offer_to, retract, retract_from,
}
use packets.Rib.RouteTable.State.{look, routes_of, Fits, Writes}
use packets.Rib.RouteTable.Offers.{
  add, without, placed-place, left-removed, settle-Writes, take_away-Writes, same-Writes,
  Writes-routes,
}
use packets.Rib.RouteTable.Passes.{reselect_lem}
use packets.Rib.RouteTable.Calls.{
  Reads, Reads-other, Reads-of-Writes, TableOp, Writes-trans, after, apply, fresh_lem, intern,
  look-fresh, offer_route, replay, replay_op, retract_route, run, select_some, update,
}

offer_at :
    (t : RouteTable) (r : Route) (o : Option Dest)
    → look t r.prefix.bits ≡ o
    → Fits t
    → r.prefix.afi ≡ t.afi
    → Writes t r.prefix.bits
        (add r (routes_of (look t r.prefix.bits)))
        (after t (offer_to r (ok (or_fresh t r.prefix o))))
offer_at t r (some d) e h family =
    Writes-routes t _ r.prefix.bits _ _
      (placed-place r d.routes ∙ ap (λ o. add r (routes_of o)) (sym e))
      (settle-Writes t r.prefix.bits d r (place r d.routes) h e)
offer_at t r none e h family =
    let t' = enqueue t (fresh r.prefix) in
    let w = fresh_lem t r.prefix h family e in
    Writes-trans t t' _ r.prefix.bits _ _ w (
      Writes-routes t' _ r.prefix.bits _ _
        (placed-place r [] ∙ ap (λ o. add r (routes_of o)) (sym e))
        (settle-Writes t' r.prefix.bits (record (fresh r.prefix) { queued = true }) r (place r [])
          w.0 (look-fresh t r.prefix)))

offer_lem :
    (t : RouteTable) (r : Route) (b : Bool)
    → eqb r.prefix.afi t.afi ≡ b
    → Fits t
    → Reads
        (after t (
          offer_to r (
            if not b
            then raises wrong_family
            else ok (or_fresh t r.prefix (look t r.prefix.bits)))))
        t.afi
        (update t.afi r.prefix (add r) (λ p. routes_of (look t p)))
offer_lem t r true e h =
    Reads-of-Writes t _ r.prefix (add r) e
      (offer_at t r (look t r.prefix.bits) refl h ((eqb_iff r.prefix.afi t.afi).0 e))
offer_lem t r false e h = Reads-other t r.prefix (add r) h e

retract_at :
    (t : RouteTable) (q : Bits) (protocol source : ℕ) (o : Option Dest)
    → look t q ≡ o
    → Fits t
    → Writes t q
        (without protocol source (routes_of (look t q)))
        (retract_from t protocol source o).0
retract_at t q protocol source none e h =
    Writes-routes t t q _ _
      (ap routes_of e ∙ sym (ap (λ o. without protocol source (routes_of o)) e)) (same-Writes t q h)
retract_at t q protocol source (some d) e h =
    Writes-routes t _ q _ _
      (left-removed protocol source d.routes
        ∙ ap (λ o. without protocol source (routes_of o)) (sym e))
      (take_away-Writes t q d (removed protocol source d.routes) h e)

retract_lem :
    (t : RouteTable) (q : Prefix) (protocol source : ℕ) (b : Bool)
    → eqb q.afi t.trie.afi ≡ b
    → Fits t
    → Reads
        (retract_from t protocol source (if b then look t q.bits else none)).0
        t.afi
        (update t.afi q (without protocol source) (λ p. routes_of (look t p)))
retract_lem t q protocol source true e h =
    Reads-of-Writes t _ q (without protocol source) (subst (λ n. eqb q.afi n ≡ true) h.family e)
      (retract_at t q.bits protocol source (look t q.bits) refl h)
retract_lem t q protocol source false e h =
    Reads-other t q (without protocol source) h (subst (λ n. eqb q.afi n ≡ false) h.family e)

intern_at :
    (t : RouteTable) (p : Prefix) (o : Option Dest)
    → look t p.bits ≡ o
    → Fits t
    → p.afi ≡ t.afi
    → Reads (or_fresh t p o).0 t.afi (λ p. routes_of (look t p))
intern_at t p (some d) e h family = (h, refl, λ p. refl)
intern_at t p none e h family =
    let (f, a, r) = fresh_lem t p h family e in
    (
      f,
      a,
      λ x. r x ∙ elim (Bool-cases (x == p.bits)) [
        | inl same ↦
            rw same (ap (λ p. routes_of (look t p)) (sym ((list_key.same_iff x p.bits).0 same)))
        | inr other ↦ rw other
      ],
    )

intern_lem :
    (t : RouteTable) (p : Prefix) (b : Bool)
    → eqb p.afi t.afi ≡ b
    → Fits t
    → Reads
        (after t (if not b then raises wrong_family else ok (or_fresh t p (look t p.bits))))
        t.afi
        (λ p. routes_of (look t p))
intern_lem t p true e h = intern_at t p (look t p.bits) refl h ((eqb_iff p.afi t.afi).0 e)
intern_lem t p false e h = (h, refl, λ p. refl)

apply_lem :
    (op : TableOp) (t : RouteTable)
    → Fits t
    → Reads (apply op t) t.afi (replay_op t.afi op (λ p. routes_of (look t p)))
unfolding offer dest retract get Ops.get
apply_lem (offer_route r) t h = offer_lem t r (eqb r.prefix.afi t.afi) refl h
apply_lem (retract_route p protocol source) t h =
    retract_lem t p protocol source (eqb p.afi t.trie.afi) refl h
apply_lem (intern p) t h = intern_lem t p (eqb p.afi t.afi) refl h
apply_lem (select_some limit) t h = reselect_lem limit t h

replay_op-agrees :
    (afi : ℕ) (op : TableOp) (f g : Bits → List Route)
    → ((p : Bits) → f p ≡ g p)
    → (p : Bits) → replay_op afi op f p ≡ replay_op afi op g p
replay_op-agrees afi (offer_route r) f g h p =
    ap (λ l. if eqb r.prefix.afi afi && p == r.prefix.bits then add r l else l) (h p)
replay_op-agrees afi (retract_route q protocol source) f g h p =
    ap (λ l. if eqb q.afi afi && p == q.bits then without protocol source l else l) (h p)
replay_op-agrees afi (intern q) f g h p = h p
replay_op-agrees afi (select_some limit) f g h p = h p

pub run_lem :
    (ops : List TableOp) (t : RouteTable) (afi : ℕ) (f : Bits → List Route)
    → Reads t afi f
    → Reads (run ops t) afi (replay afi ops f)
run_lem [] t afi f r = r
run_lem (op ∷ ops) t afi f (fits, same_afi, reads) =
    let (f', a, h) = apply_lem op t fits in
    run_lem ops (apply op t) afi (replay_op afi op f) (
      f',
      a ∙ same_afi,
      λ p.
          h p
          ∙ subst (λ n. replay_op n op (λ p. routes_of (look t p)) p ≡ replay_op afi op f p)
              (sym same_afi) (replay_op-agrees afi op (λ p. routes_of (look t p)) f reads p),
    )

-- Any calls keep the invariant.
pub run-Fits : (ops : List TableOp) (t : RouteTable) → Fits t → Fits (run ops t)
run-Fits ops t h =
    let r = run_lem ops t t.afi (λ p. routes_of (look t p)) (h, refl, λ p. refl) in r.0
