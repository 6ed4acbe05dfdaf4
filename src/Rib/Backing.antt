-- ===== src/Rib/Backing.antt =====
-- packets/routing/rtengine/rib/resolver.py: the entry that one lookup of a next hop rests on.
use packets.Base.{
  ℕ, suc, ◌<◌, ◌≡◌, refl, sym, ap, ◌∙◌, ◌≢◌, ◌⊎◌, Bool, true, false, Option, none, some, arith,
  if◌then◌else◌,
}
use packets.Rib.Route.{Bytes, Prefix, Route, Dest}
use packets.Rib.Lookup.{
  Table, covering_from-Longest, lpm, covering_from, walk, answer_in, covering-Best, Longest, Best,
  best_passes,
}
use packets.Rib.Trie.Ops.{Result, ok, raises}
use packets.Rib.Resolver.{
  Source, static_source, kernel_source, rib_source, Resolver, Step, step, covering, may_answer,
  usable, found, found_best, from_table, from_rib, rib_step, or_else, found_by, is_recursive,
  nh_afi,
}

abbrev pub family_table : ℕ → Option (ℕ → Option Table) → Option Table
family_table afi none = none
family_table afi (some tables) = tables afi

abbrev pub tables_of : Resolver → Source → ℕ → Option Table
tables_of r static_source afi = r.static afi
tables_of r kernel_source afi = r.kernel afi
tables_of r rib_source afi = family_table afi r.global_rib

-- A default counts only if the configuration says so.
abbrev pub NotDefault : Bool → Prefix → Type 0
NotDefault via_default p = (0 < p.plen) ⊎ (via_default ≡ true)

-- No protocol vouches for its own next hop.
abbrev pub OfOther : Option ℕ → Source → Route → Type 0
OfOther none source route = Unit
OfOther (some protocol) rib_source route = route.protocol ≢ protocol
OfOther (some protocol) source route = Unit

-- The prefix that answers: that of the entry in the configured tables, that of the route in the
-- engine's.
abbrev pub entry_prefix : Source → Dest → Route → Prefix
entry_prefix static_source d route = d.prefix
entry_prefix kernel_source d route = d.prefix
entry_prefix rib_source d route = route.prefix

static_other : (protocol : Option ℕ) (route : Route) → OfOther protocol static_source route
static_other none route = tt
static_other (some p) route = tt

kernel_other : (protocol : Option ℕ) (route : Route) → OfOther protocol kernel_source route
kernel_other none route = tt
kernel_other (some p) route = tt

module _ (r : Resolver) (protocol : Option ℕ) where
  -- The entry that a step rests on.
  pub record Backed (afi : ℕ) (addr : Bytes) (s : Step) : Type 1 where
    pub table : Table
    pub dest : Dest
    pub in_tables : tables_of r s.source afi ≡ some table
    pub covers : table.Covers addr dest
    pub is_best : dest.best ≡ some s.route
    pub from_entry : s.prefix ≡ entry_prefix s.source dest s.route
    pub not_default : NotDefault r.resolve_via_default s.prefix
    pub of_other : OfOther protocol s.source s.route

  -- A next hop that a chain of entries backs, through at most so many routes of the engine; the
  -- last is an entry that ends the chain.
  pub data Chain : ℕ → ℕ → Bytes → Type 1 where
    ends :
        {n : ℕ} {afi : ℕ} {addr : Bytes} (s : Step)
        → Backed afi addr s
        → is_recursive s ≡ false
        → Chain n afi addr
    through :
        {n : ℕ} {afi : ℕ} {addr : Bytes} (s : Step)
        → Backed afi addr s
        → is_recursive s ≡ true
        → Chain n (nh_afi s.route.nexthop) s.route.nexthop
        → Chain (suc n) afi addr

  module _ (afi : ℕ) (addr : Bytes) where
    -- Whatever is found passes.
    abbrev pub Answers : Option Step → Type 1
    Answers none = Unit
    Answers (some s) = Backed afi addr s

    or_else-Answers : (o p : Option Step) → Answers o → Answers p → Answers (or_else o p)
    or_else-Answers none p x y = y
    or_else-Answers (some s) p x y = x

    module _ (source : Source) (other : (route : Route) → OfOther protocol source route)
        (own : (d : Dest) (route : Route) → d.prefix ≡ entry_prefix source d route) where
      found_best-Answers :
          (t : Table) (d : Dest)
          → tables_of r source afi ≡ some t
          → t.Covers addr d
          → may_answer r.resolve_via_default d ≡ true
          → (b : Option Route) → d.best ≡ b
          → Answers (found_best source d.prefix b)
      found_best-Answers t d e c passes none eb = tt
      found_best-Answers t d e c passes (some route) eb = record {
        table = t;
        dest = d;
        in_tables = e;
        covers = c;
        is_best = eb;
        from_entry = own d route;
        not_default = ground arith;
        of_other = other route;
      }

      found-Answers :
          (t : Table)
          → tables_of r source afi ≡ some t
          → (o : Option Dest)
          → Longest (λ d. t.Covers addr d × (may_answer r.resolve_via_default d ≡ true)) o
          → Answers (found source o)
      found-Answers t e none longest = tt
      found-Answers t e (some d) longest =
          found_best-Answers t d e longest.0.0 longest.0.1 d.best refl

      covering-Answers :
          (t : Table)
          → tables_of r source afi ≡ some t
          → (w : Result (Option Dest)) → t.lpm_addr addr ≡ w
          → Answers
              (found source (covering_from (may_answer r.resolve_via_default) t addr (found_by w)))
      unfolding covering_from walk
      covering-Answers t e (raises x) ew = tt
      covering-Answers t e (ok o) ew =
          found-Answers t e (covering_from (may_answer r.resolve_via_default) t addr o)
            (covering_from-Longest (may_answer r.resolve_via_default) t addr o ew)

      from_table-Answers :
          (o : Option Table)
          → tables_of r source afi ≡ o
          → Answers (from_table source r.resolve_via_default o addr)
      unfolding covering
      from_table-Answers none e = tt
      from_table-Answers (some t) e = covering-Answers t e (t.lpm_addr addr) refl

    usable-NotDefault :
        (protocol : Option ℕ) (route : Route)
        → usable protocol r.resolve_via_default route ≡ true
        → NotDefault r.resolve_via_default route.prefix × OfOther protocol rib_source route
    usable-NotDefault none route h = (ground arith, tt)
    usable-NotDefault (some p) route h = (ground arith, ground arith)

    rib_step-Answers :
        (t : Table)
        → tables_of r rib_source afi ≡ some t
        → (o : Option Route)
        → Best
            (λ d.
              t.Covers addr d × (best_passes (usable protocol r.resolve_via_default) d.best ≡ true))
            o
        → Answers (rib_step o)
    rib_step-Answers t e none best = tt
    rib_step-Answers t e (some route) best =
        let passes =
          usable-NotDefault protocol route
            (sym (ap (best_passes (usable protocol r.resolve_via_default)) best.2) ∙ best.1.1) in
        record {
          table = t;
          dest = best.0;
          in_tables = e;
          covers = best.1.0;
          is_best = best.2;
          from_entry = refl;
          not_default = passes.0;
          of_other = passes.1;
        }

    answer_in-Answers :
        (t : Table)
        → tables_of r rib_source afi ≡ some t
        → (w : Result (Option Dest)) → t.lpm_addr addr ≡ w
        → Answers (
            rib_step (found_by (answer_in t addr (some (usable protocol r.resolve_via_default)) w)))
    answer_in-Answers t e (raises x) ew = tt
    answer_in-Answers t e (ok o) ew =
        rib_step-Answers t e _ (covering-Best t addr (usable protocol r.resolve_via_default) o ew)

    lpm-Answers :
        (o : Option Table)
        → tables_of r rib_source afi ≡ o
        → Answers (rib_step (found_by (lpm o addr (some (usable protocol r.resolve_via_default)))))
    unfolding lpm
    lpm-Answers none e = tt
    lpm-Answers (some t) e = answer_in-Answers t e (t.lpm_addr addr) refl

    if-Answers : (b : Bool) (o : Option Step) → Answers o → Answers (if b then o else none)
    if-Answers true o x = x
    if-Answers false o x = tt

    from_rib-Answers :
        (o : Option (ℕ → Option Table))
        → r.global_rib ≡ o
        → Answers (from_rib r afi addr protocol o)
    from_rib-Answers none e = tt
    from_rib-Answers (some tables) e =
        if-Answers r.use_rib _ (lpm-Answers (tables afi) (ap (family_table afi) e))

    pub step-Answers : Answers (step r afi addr protocol)
    unfolding step
    step-Answers =
        or_else-Answers _ _
          (from_table-Answers static_source (static_other protocol) (λ d route. refl) (r.static afi)
            refl)
          (or_else-Answers _ _
            (from_table-Answers kernel_source (kernel_other protocol) (λ d route. refl)
              (r.kernel afi) refl)
            (from_rib-Answers r.global_rib refl))
