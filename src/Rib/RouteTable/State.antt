-- ===== src/Rib/RouteTable/State.antt =====
-- packets/routing/rtengine/rib/table.pyx: the invariant of a `RouteTable`, which its writes keep.
use packets.Base.{
  ℕ, Bool, true, false, Option, none, some, List, [], ◌∷◌, ◌++◌, ◌≡◌, ◌≢◌, refl, sym, ap, ◌∙◌,
  if◌then◌else◌, Bool-cases, inl, inr, ◌==◌, list_key, bool_key,
}
use mathlib.Core.Path.{subst}
use mathlib.Core.List.{Mem, mem-cons_self, mem-append_left, mem-append_right}
use packets.Rib.Route.{Route, Dest}
use packets.Rib.Trie.Bits.{Bits}
use packets.Rib.Trie.Node.{node_exact}
use packets.Rib.Trie.Valid.{IsValid, store-IsValid, exact-store}
use packets.Rib.RouteTable.Select.{select, same_object}
use packets.Rib.RouteTable.Ops.{RouteTable, write, enqueue, is_empty}

abbrev pub look : RouteTable → Bits → Option Dest
look t p = node_exact t.trie.root p

abbrev pub routes_of : Option Dest → List Route
routes_of none = []
routes_of (some d) = d.routes

-- The best route is the one that selection would choose, of at least one.
abbrev pub Settled : Dest → Type 0
Settled d = (is_empty d.routes ≡ false) × (same_object (select d.routes) d.best ≡ true)

abbrev pub Waits : List Bits → Dest → Bool → Type 0
Waits queue d true = Mem d.prefix.bits queue
Waits queue d false = Settled d

-- A destination stands under its own prefix, and waits in the queue or is settled.
abbrev pub EntryFits : ℕ → List Bits → Bits → Option Dest → Type 0
EntryFits afi queue p none = Unit
EntryFits afi queue p (some d) = (d.prefix.bits ≡ p) × (d.prefix.afi ≡ afi) × Waits queue d d.queued

-- The invariant, with the queue that is left.
pub record FitsWith (queue : List Bits) (t : RouteTable) : Type 0 where
  pub valid : IsValid t.trie
  pub family : t.trie.afi ≡ t.afi
  pub entries : (p : Bits) → EntryFits t.afi queue p (look t p)

abbrev pub Fits : RouteTable → Type 0
Fits t = FitsWith t.queue t

Waits-more :
    (d : Dest) (queue more : List Bits) (b : Bool) → Waits queue d b → Waits (queue ++ more) d b
Waits-more d queue more true h = mem-append_left more h
Waits-more d queue more false h = h

EntryFits-more :
    (afi : ℕ) (queue more : List Bits) (p : Bits) (o : Option Dest)
    → EntryFits afi queue p o
    → EntryFits afi (queue ++ more) p o
EntryFits-more afi queue more p none h = tt
EntryFits-more afi queue more p (some d) (home, family, h) =
    (home, family, Waits-more d queue more d.queued h)

-- A function of the entries, changed at one prefix.
pub at_or_else :
    {A : Type 0} (P : Bits → A → Type 0) (p q : Bits) (x y : A)
    → P q x
    → (p ≢ q → P p y)
    → P p (if p == q then x else y)
at_or_else P p q x y hx hy = elim (Bool-cases (p == q)) [
  | inl e ↦ rw e (subst (λ p. P p x) (sym ((list_key.same_iff p q).0 e)) hx)
  | inr e ↦ rw e (hy (λ same. let t = (list_key.same_iff p q).1 same in cc))
]

-- A write of a destination that fits keeps the invariant.
pub write-FitsWith :
    (queue : List Bits) (t : RouteTable) (d : Dest)
    → IsValid t.trie
    → t.trie.afi ≡ t.afi
    → ((p : Bits) → p ≢ d.prefix.bits → EntryFits t.afi queue p (look t p))
    → EntryFits t.afi queue d.prefix.bits (some d)
    → FitsWith queue (write t d)
unfolding write
write-FitsWith queue t d valid family others here = record {
  valid = store-IsValid t.trie d.prefix.bits d valid;
  family = family;
  entries = λ p.
      subst (EntryFits t.afi queue p) (sym (exact-store t.trie d.prefix.bits p d))
        (at_or_else (EntryFits t.afi queue) p d.prefix.bits (some d) (look t p) here (others p));
}

pub routes-write :
    (t : RouteTable) (d : Dest) (p : Bits)
    → routes_of (look (write t d) p)
      ≡ (if p == d.prefix.bits then d.routes else routes_of (look t p))
unfolding write
routes-write t d p =
    ap routes_of (exact-store t.trie d.prefix.bits p d) ∙ pushed (p == d.prefix.bits)
  where
    pushed :
        (b : Bool)
        → routes_of (if b then some d else look t p)
          ≡ (if b then d.routes else routes_of (look t p))
    pushed true = refl
    pushed false = refl

-- What an operation that changes the routes of one prefix leaves.
abbrev pub Writes : RouteTable → Bits → List Route → RouteTable → Type 0
Writes t q routes s =
    Fits s
    × (s.afi ≡ t.afi)
    × ((p : Bits) → routes_of (look s p) ≡ (if p == q then routes else routes_of (look t p)))

marked_lem :
    (t : RouteTable) (d : Dest) (b : Bool)
    → d.queued ≡ b
    → Fits t
    → d.prefix.afi ≡ t.afi
    → (b ≡ true → Mem d.prefix.bits t.queue)
    → Writes t d.prefix.bits d.routes (
        if b then write t d else record (write t (record d { queued = true })) {
          queue = t.queue ++ d.prefix.bits ∷ [];
        })
unfolding write
marked_lem t d true e h family waits = (
  write-FitsWith t.queue t d h.valid h.family (λ p ne. h.entries p)
      (refl, family, subst (Waits t.queue d) (sym e) (waits refl)),
  refl,
  routes-write t d,
)
marked_lem t d false e h family waits =
    let f =
      write-FitsWith (t.queue ++ d.prefix.bits ∷ []) t (record d { queued = true }) h.valid h.family
        (λ p ne. EntryFits-more t.afi t.queue (d.prefix.bits ∷ []) p (look t p) (h.entries p))
        (refl, family, mem-append_right t.queue mem-cons_self) in
    (
      record { valid = f.valid; family = f.family; entries = f.entries },
      refl,
      routes-write t (record d { queued = true }),
    )

-- A destination that changed is written and waits; nothing else changes.
pub enqueue_lem :
    (t : RouteTable) (d : Dest)
    → Fits t
    → d.prefix.afi ≡ t.afi
    → (d.queued ≡ true → Mem d.prefix.bits t.queue)
    → Writes t d.prefix.bits d.routes (enqueue t d)
unfolding enqueue
enqueue_lem t d h family waits = marked_lem t d d.queued refl h family waits
