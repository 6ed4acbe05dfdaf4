-- ===== src/Rib/Tally.antt =====
-- packets/routing/rtengine/rib/resolver.py: the counters of a resolver and the rank of the statics.
use packets.Base.{
  ℕ, zero, suc, ◌+◌, ◌≤◌, ◌<◌, ◌≡◌, refl, sym, ap, ◌∙◌, Bool, true, false, not, Option, none, some,
  List, [], ◌∷◌, eqb, ◌||◌, arith, length, if◌then◌else◌,
}
use mathlib.Core.Path.{subst}
use packets.Rib.Route.{Bytes, Route, Dest}
use packets.Rib.Lookup.{Table, covering_from, covering_from-Longest, Longest}
use packets.Rib.Trie.Ops.{ok}
use packets.Rib.Resolver.{
  Source, static_source, kernel_source, rib_source, Resolution, Resolver, Step, step, resolve,
  resolve_from, is_recursive, max_depth, ChainKey, seen_key, among, Answer, confirm, settle, follow,
  nh_afi, or_else, from_rib, addr_len, count_hit, count_source, covering, may_answer, found,
  found_best, from_table,
}

-- Every hit is counted for its source, and each lookup is a hit or a failure at most once.
pub record Tally (r : Resolver) : Type 0 where
  pub by_source :
      r.hits ≡ r.source_hits.static_hits + r.source_hits.kernel_hits + r.source_hits.rib_hits
  pub within : r.hits + r.recursion_failures ≤ r.lookups

-- What a chain leaves: the resolver, with at most one failure counted and none if it resolves.
abbrev Left : Resolver → Answer → Type 1
Left r (some found, r') = r' ≡ r
Left r (none, r') =
    (k : ℕ) × (k ≤ 1) × (r' ≡ record r { recursion_failures = r.recursion_failures + k })

confirm-Left : (r : Resolver) (s : Step) (a : Answer) → Left r a → Left r (confirm s a)
confirm-Left r s (none, r') left = left
confirm-Left r s (some found, r') left = left

settle-Left :
    (r : Resolver) (recursive refused : Bool) (next : Step → Answer) (s : Step)
    → Left r (next s)
    → Left r (settle recursive refused next s r)
settle-Left r false refused next s left = refl
settle-Left r true true next s left = (1, omega arith, refl)
settle-Left r true false next s left = confirm-Left r s (next s) left

follow-Left :
    (r : Resolver) (exhausted : Bool) (next : Step → Answer) (afi : ℕ) (seen : List ChainKey)
    → ((s : Step) → Left r (next s))
    → (o : Option Step) → Left r (follow exhausted next afi seen r o)
follow-Left r exhausted next afi seen left none = (0, omega arith, ground arith)
follow-Left r exhausted next afi seen left (some s) =
    settle-Left r (is_recursive s) (among (seen_key afi s) seen || exhausted) next s (left s)

resolve_from-Left :
    (left afi : ℕ) (addr : Bytes) (protocol : Option ℕ) (seen : List ChainKey) (r : Resolver)
    → Left r (resolve_from left afi addr protocol seen r)
unfolding resolve_from
resolve_from-Left zero afi addr protocol seen r =
    follow-Left r true _ afi seen (λ s. (1, omega arith, refl)) (step r afi addr protocol)
resolve_from-Left (suc left) afi addr protocol seen r =
    follow-Left r false _ afi seen (λ s. resolve_from-Left left _ _ protocol _ r)
      (step r afi addr protocol)

-- A resolver's tally after one more lookup.
abbrev Counted : Resolver → Option Answer → Type 0
Counted r none = Unit
Counted r (some a) = Tally a.1 × (a.1.lookups ≡ r.lookups + 1)

module _ (r : Resolver) (t : Tally r) where
  count_hit-Counted :
      (found : Resolution) (source : Source)
      → Counted r (
          some (
            some found,
            record r {
              lookups = r.lookups + 1;
              hits = r.hits + 1;
              source_hits = count_source source r.source_hits;
            },
          ))
  count_hit-Counted found static_source =
      (record { by_source = omega (arith, t.by_source); within = omega (arith, t.within) }, refl)
  count_hit-Counted found kernel_source =
      (record { by_source = omega (arith, t.by_source); within = omega (arith, t.within) }, refl)
  count_hit-Counted found rib_source =
      (record { by_source = omega (arith, t.by_source); within = omega (arith, t.within) }, refl)

  answer-Counted :
      (a : Answer) → Left (record r { lookups = r.lookups + 1 }) a → Counted r (some (count_hit a))
  answer-Counted (none, r') (k, le, e) =
      subst (λ q. Counted r (some (none, q))) (sym e)
        (record { by_source = t.by_source; within = omega (arith, t.within) }, refl)
  answer-Counted (some found, r') e =
      subst (λ q. Counted r (some (count_hit (some found, q)))) (sym e)
        (count_hit-Counted found found.source)

  checked-Counted :
      (b c : Bool) (o : Option Answer)
      → Counted r o
      → Counted r (if b then none else if c then none else o)
  checked-Counted true c o x = tt
  checked-Counted false true o x = tt
  checked-Counted false false o x = x

-- If the hits add up by source and with the failures do not exceed the lookups, the same holds
-- after a lookup that does not raise, and the lookup is counted.
pub resolve-Tally :
    (afi : ℕ) (addr : Bytes) (protocol : Option ℕ) (r r' : Resolver) (found : Option Resolution)
    → Tally r
    → resolve afi addr protocol r ≡ some (found, r')
    → Tally r' × (r'.lookups ≡ r.lookups + 1)
unfolding resolve
resolve-Tally afi addr protocol r r' found t h = subst (Counted r) h (
    checked-Counted r t (eqb (addr_len afi) 0) (not (eqb (length addr) (addr_len afi)))
      (some (
        count_hit
          (resolve_from max_depth afi addr protocol [] (record r { lookups = r.lookups + 1 }))))
      (answer-Counted r t _
        (resolve_from-Left max_depth afi addr protocol [] (record r { lookups = r.lookups + 1 }))))

-- `r` after a lookup that a static answers.
abbrev pub counted_static : Resolver → Resolver
counted_static r = record r {
  lookups = r.lookups + 1;
  hits = r.hits + 1;
  source_hits = record r.source_hits { static_hits = r.source_hits.static_hits + 1 };
}

abbrev pub static_answer : Dest → Route → Resolution
static_answer e route = record {
  prefix = e.prefix;
  nexthop = route.nexthop;
  metric = route.metric;
  source = static_source;
}

module _ (table : Table) (addr : Bytes) (via_default : Bool) (d : Dest)
    (covers : table.Covers addr d) (passes : may_answer via_default d ≡ true) where
  -- The longest static that may answer.
  pub record Chosen (e : Dest) (route : Route) : Type 0 where
    pub chosen_covers : table.Covers addr e
    pub chosen_best : e.best ≡ some route
    pub at_least : d.prefix.plen ≤ e.prefix.plen

  abbrev FoundStatic : Option Step → Type 0
  FoundStatic o =
      (e : Dest) × (route : Route) × Chosen e route
      × (o ≡ some (record { source = static_source; prefix = e.prefix; route = route }))

  found_best-static :
      (e : Dest)
      → table.Covers addr e
      → d.prefix.plen ≤ e.prefix.plen
      → may_answer via_default e ≡ true
      → (b : Option Route) → e.best ≡ b
      → FoundStatic (found_best static_source e.prefix b)
  found_best-static e c le may none eb = absurd (ground arith)
  found_best-static e c le may (some route) eb =
      (e, route, record { chosen_covers = c; chosen_best = eb; at_least = le }, refl)

  found-static :
      (o : Option Dest)
      → Longest (λ d. table.Covers addr d × (may_answer via_default d ≡ true)) o
      → FoundStatic (found static_source o)
  found-static none longest = absurd (longest d (covers, passes))
  found-static (some e) longest =
      found_best-static e longest.0.0 (longest.1 d (covers, passes)) longest.0.1 e.best refl

  covering-static :
      (o : Option Dest)
      → table.lpm_addr addr ≡ ok o
      → FoundStatic (from_table static_source via_default (some table) addr)
  unfolding covering
  covering-static o fits = rw fits (
      found-static (covering_from (may_answer via_default) table addr o)
        (covering_from-Longest (may_answer via_default) table addr o fits))

checked-legal :
    (n m : ℕ) (o : Option Answer)
    → 0 < n
    → m ≡ n
    → (if eqb n 0 then none else if not (eqb m n) then none else o) ≡ o
checked-legal n m o family width = ground arith

step-static :
    (afi : ℕ) (addr : Bytes) (protocol : Option ℕ) (r : Resolver) (table : Table) (s : Step)
    → r.static afi ≡ some table
    → from_table static_source r.resolve_via_default (some table) addr ≡ some s
    → step r afi addr protocol ≡ some s
unfolding step
step-static afi addr protocol r table s in_static e =
    ap
      (λ o. or_else (from_table static_source r.resolve_via_default o addr) (
        or_else (from_table kernel_source r.resolve_via_default (r.kernel afi) addr)
          (from_rib r afi addr protocol r.global_rib)))
      in_static
    ∙ ap
        (λ o. or_else o (
          or_else (from_table kernel_source r.resolve_via_default (r.kernel afi) addr)
            (from_rib r afi addr protocol r.global_rib)))
        e

resolve_from-static :
    (left afi : ℕ) (addr : Bytes) (protocol : Option ℕ) (seen : List ChainKey) (r : Resolver)
    (e : Dest) (route : Route)
    → step r afi addr protocol
      ≡ some (record { source = static_source; prefix = e.prefix; route = route })
    → resolve_from (suc left) afi addr protocol seen r ≡ (some (static_answer e route), r)
unfolding resolve_from
resolve_from-static left afi addr protocol seen r e route h =
    ap
      (follow false
        (λ s.
          resolve_from left (nh_afi s.route.nexthop) s.route.nexthop protocol
            (seen_key afi s ∷ seen) r)
        afi seen r)
      h

-- For an address of the width of its family and of the table, a covering static that may answer settles the lookup whatever
-- the other tables hold: the answer is a static at least as long, without a further lookup, and is
-- counted as a hit of the statics.
pub resolve-static :
    (afi : ℕ) (addr : Bytes) (protocol : Option ℕ) (r : Resolver) (table : Table) (d : Dest)
    → r.static afi ≡ some table
    → (covers : table.Covers addr d) → (passes : may_answer r.resolve_via_default d ≡ true)
    → 0 < addr_len afi
    → length addr ≡ addr_len afi
    → (o : Option Dest) → table.lpm_addr addr ≡ ok o
    → (e : Dest) × (route : Route) × Chosen table addr r.resolve_via_default d covers passes e route
      × (resolve afi addr protocol r ≡ some (some (static_answer e route), counted_static r))
unfolding resolve
resolve-static afi addr protocol r table d in_static covers passes family width o fits =
    let (e, route, chosen, at) =
      covering-static table addr r.resolve_via_default d covers passes o fits in
    let looked_up = record r { lookups = r.lookups + 1 } in
    (
      e,
      route,
      chosen,
      checked-legal (addr_len afi) (length addr)
            (some (count_hit (resolve_from max_depth afi addr protocol [] looked_up))) family width
          ∙ ap (λ a. some (count_hit a))
              (resolve_from-static 3 afi addr protocol [] looked_up e route
                (step-static afi addr protocol looked_up table _ in_static at)),
    )
