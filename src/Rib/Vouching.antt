-- ===== src/Rib/Vouching.antt =====
-- packets/routing/rtengine/rib/resolver.py: what stands behind a resolved next hop.
use packets.Base.{
  ℕ, zero, suc, ◌+◌, ◌≡◌, refl, sym, ◌∙◌, Bool, true, false, not, Option, none, some, List, [], eqb,
  ◌||◌, arith, length, if◌then◌else◌,
}
use mathlib.Core.Path.{subst}
use packets.Rib.Route.{Bytes}
use packets.Rib.Resolver.{
  Resolution, Resolver, Step, resolve, reachable, is_found, resolve_from, found, is_recursive,
  nh_afi, max_depth, ChainKey, settle, follow, seen_key, among, Answer, confirm, addr_len,
  count_hit,
}
use packets.Rib.Backing.{Backed, Chain, ends, through, Answers, step-Answers}

module _ (protocol : Option ℕ) where
  abbrev Sound : Resolver → ℕ → ℕ → Bytes → Option Resolution → Type 1
  Sound r n afi addr none = Unit
  Sound r n afi addr (some found) = Chain r protocol n afi addr

  module _ (r : Resolver) (afi : ℕ) (addr : Bytes) where
    last-Sound :
        (recursive looped : Bool) (next : Step → Answer) (s : Step)
        → is_recursive s ≡ recursive
        → Backed r protocol afi addr s
        → Sound r 0 afi addr (settle recursive (looped || true) next s r).0
    last-Sound false looped next s e b = ends s b e
    last-Sound true true next s e b = tt
    last-Sound true false next s e b = tt

    confirm-Sound :
        (n : ℕ) (s : Step)
        → is_recursive s ≡ true
        → Backed r protocol afi addr s
        → (a : Answer) → Sound r n (nh_afi s.route.nexthop) s.route.nexthop a.0
        → Sound r (suc n) afi addr (confirm s a).0
    confirm-Sound n s e b (none, r') sound = tt
    confirm-Sound n s e b (some found, r') sound = through s b e sound

    settle-Sound :
        (n : ℕ) (recursive refused : Bool) (next : Step → Answer) (s : Step)
        → is_recursive s ≡ recursive
        → Backed r protocol afi addr s
        → Sound r n (nh_afi s.route.nexthop) s.route.nexthop (next s).0
        → Sound r (suc n) afi addr (settle recursive refused next s r).0
    settle-Sound n false refused next s e b sound = ends s b e
    settle-Sound n true true next s e b sound = tt
    settle-Sound n true false next s e b sound = confirm-Sound n s e b (next s) sound

    follow_last-Sound :
        (next : Step → Answer) (seen : List ChainKey) (o : Option Step)
        → Answers r protocol afi addr o
        → Sound r 0 afi addr (follow true next afi seen r o).0
    follow_last-Sound next seen none x = tt
    follow_last-Sound next seen (some s) x =
        last-Sound (is_recursive s) (among (seen_key afi s) seen) next s refl x

    follow-Sound :
        (n : ℕ) (next : Step → Answer) (seen : List ChainKey)
        → ((s : Step) → Sound r n (nh_afi s.route.nexthop) s.route.nexthop (next s).0)
        → (o : Option Step) → Answers r protocol afi addr o
        → Sound r (suc n) afi addr (follow false next afi seen r o).0
    follow-Sound n next seen sound none x = tt
    follow-Sound n next seen sound (some s) x =
        settle-Sound n (is_recursive s) (among (seen_key afi s) seen || false) next s refl x
          (sound s)

  resolve_from-Sound :
      (left afi : ℕ) (addr : Bytes) (seen : List ChainKey) (r : Resolver)
      → Sound r left afi addr (resolve_from left afi addr protocol seen r).0
  unfolding resolve_from
  resolve_from-Sound zero afi addr seen r =
      follow_last-Sound r afi addr _ seen _ (step-Answers r protocol afi addr)
  resolve_from-Sound (suc left) afi addr seen r =
      follow-Sound r afi addr left _ seen (λ s. resolve_from-Sound left _ _ _ r) _
        (step-Answers r protocol afi addr)

  Backed-lookups :
      (r : Resolver) (n afi : ℕ) (addr : Bytes) (s : Step)
      → Backed (record r { lookups = n }) protocol afi addr s
      → Backed r protocol afi addr s
  Backed-lookups r n afi addr s b = record {
    table = b.table;
    dest = b.dest;
    in_tables = b.in_tables;
    covers = b.covers;
    is_best = b.is_best;
    from_entry = b.from_entry;
    not_default = b.not_default;
    of_other = b.of_other;
  }

  Chain-lookups :
      (r : Resolver) (n : ℕ) {k : ℕ} {afi : ℕ} {addr : Bytes}
      → Chain (record r { lookups = n }) protocol k afi addr
      → Chain r protocol k afi addr
  Chain-lookups r n (ends s b e) = ends s (Backed-lookups r n _ _ s b) e
  Chain-lookups r n (through s b e c) =
      through s (Backed-lookups r n _ _ s b) e (Chain-lookups r n c)

  module _ (r : Resolver) (afi : ℕ) (addr : Bytes) where
    -- Whatever is reported reachable is backed.
    abbrev Confirmed : Option (Bool × Resolver) → Type 1
    Confirmed none = Unit
    Confirmed (some (false, r')) = Unit
    Confirmed (some (true, r')) = Chain r protocol max_depth afi addr

    answer-Confirmed :
        (a : Answer)
        → Sound (record r { lookups = r.lookups + 1 }) max_depth afi addr a.0
        → Confirmed (is_found (some (count_hit a)))
    answer-Confirmed (none, r') sound = tt
    answer-Confirmed (some found, r') sound = Chain-lookups r (r.lookups + 1) sound

    checked-Confirmed :
        (b c : Bool) (o : Option Answer)
        → Confirmed (is_found o)
        → Confirmed (is_found (if b then none else if c then none else o))
    checked-Confirmed true c o x = tt
    checked-Confirmed false true o x = tt
    checked-Confirmed false false o x = x

    resolve-Confirmed : Confirmed (is_found (resolve afi addr protocol r))
    unfolding resolve
    resolve-Confirmed =
        checked-Confirmed (eqb (addr_len afi) 0) (not (eqb (length addr) (addr_len afi)))
          (some (
            count_hit
              (resolve_from max_depth afi addr protocol [] (record r { lookups = r.lookups + 1 }))))
          (answer-Confirmed
            (resolve_from max_depth afi addr protocol [] (record r { lookups = r.lookups + 1 }))
            (resolve_from-Sound max_depth afi addr [] (record r { lookups = r.lookups + 1 })))

  reachable-enabled :
      (afi : ℕ) (addr : Bytes) (r : Resolver)
      → r.enabled ≡ true
      → reachable afi addr protocol r ≡ is_found (resolve afi addr protocol r)
  unfolding reachable
  reachable-enabled afi addr r on = ground arith

  -- A next hop that is reported reachable while validation is on is backed by a chain of covering
  -- entries, at most four of them routes of the engine that are followed further; each answers with
  -- the prefix of its entry in the configured tables or of its route in the engine's, which is a
  -- default route only if those may resolve; none is an engine route of the protocol that asks.
  pub reachable-Chain :
      (afi : ℕ) (addr : Bytes) (r r' : Resolver)
      → r.enabled ≡ true
      → reachable afi addr protocol r ≡ some (true, r')
      → Chain r protocol max_depth afi addr
  reachable-Chain afi addr r r' on h =
      subst (Confirmed r afi addr) (sym (reachable-enabled afi addr r on) ∙ h)
        (resolve-Confirmed r afi addr)
