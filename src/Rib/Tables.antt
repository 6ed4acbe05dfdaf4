-- ===== src/Rib/Tables.antt =====
-- packets/routing/rtengine/rib/globalrib.py and packets/routing/rtengine/rib/resolver.py: the
-- theorems on lookups at tables of two entries, a default and a prefix of length 8.
use packets.Base.{
  ℕ, ◌≤◌, Bool, true, false, Option, none, some, [], ◌∷◌, ◌≡◌, refl, sym, ap, ◌∙◌, ◌⊎◌, inl, inr,
  eqb, length, leb, ◌&&◌, if◌then◌else◌, arith,
}
use mathlib.Core.Path.{subst}
use packets.Rib.Trie.Bits.{bits_of}
use packets.Rib.Route.{Bytes, Route, Dest}
use packets.Rib.Lookup.{Table, Longest, covering_from, walk, lpm}
use packets.Rib.Resolver.{
  Resolver, Resolution, rib_source, resolve, resolve_from, reachable, covering, step, max_depth,
}
use packets.Rib.Trie.Ops.{ok, raises, wrong_width}
use packets.Rib.Trie.Routes.{checked_inj}
use packets.Rib.Backing.{Chain}
use packets.Rib.Vouching.{reachable-Chain}

abbrev starts : ℕ → Bytes → Bool
starts byte [] = false
starts byte (b ∷ bs) = eqb b byte

module _ (byte : ℕ) (short long : Option Route) where
  abbrev default_dest : Dest
  default_dest = record {
    prefix = record { afi = 1; bits = []; text = "0.0.0.0/0"; plen = 0 };
    best = short;
    routes = [];
    queued = false;
    version = 1;
  }

  abbrev long_dest : Dest
  long_dest = record {
    prefix = record { afi = 1; bits = bits_of (10 ∷ []); text = "10.0.0.0/8"; plen = 8 };
    best = long;
    routes = [];
    queued = false;
    version = 2;
  }

  abbrev Covers : Bytes → Dest → Type 0
  Covers a d = (d ≡ default_dest) ⊎ ((d ≡ long_dest) × (starts byte a ≡ true))

  abbrev choose : Bool → Option Dest
  choose b = if b then some long_dest else some default_dest

  abbrev Plen : Bytes → ℕ → Type 0
  Plen a n = (n ≡ 0) ⊎ ((n ≡ 8) × (starts byte a ≡ true))

  Plen-of : (a : Bytes) (d : Dest) → Covers a d → Plen a d.prefix.plen
  Plen-of a d (inl e) = inl (ap (λ d. d.prefix.plen) e)
  Plen-of a d (inr (e, s)) = inr (ap (λ d. d.prefix.plen) e, s)

  Plen-le : (a : Bytes) {n : ℕ} → Plen a n → n ≤ 8
  Plen-le a p = ground arith

  unique :
      (a : Bytes) (d d' : Dest) → Covers a d → Covers a d' → d.prefix.plen ≡ d'.prefix.plen → d ≡ d'
  unique a d d' (inl x) (inl y) e = x ∙ sym y
  unique a d d' (inl x) (inr y) e =
      let p = sym (ap (λ d. d.prefix.plen) x) ∙ e ∙ ap (λ d. d.prefix.plen) y.0 in
      absurd (omega arith)
  unique a d d' (inr x) (inl y) e =
      let p = sym (ap (λ d. d.prefix.plen) x.0) ∙ e ∙ ap (λ d. d.prefix.plen) y in
      absurd (omega arith)
  unique a d d' (inr x) (inr y) e = x.0 ∙ sym y.0

  choose-Longest :
      (n : ℕ) (a : Bytes) (b : Bool)
      → (leb 8 n && starts byte a) ≡ b
      → Longest (λ d. Covers a d × (d.prefix.plen ≤ n)) (choose b)
  choose-Longest n a true e =
      ((inr (refl, ground arith), ground arith), λ d' passes. Plen-le a (Plen-of a d' passes.0))
  choose-Longest n a false e = (
    (inl refl, omega arith),
    λ d' passes. let p = Plen-of a d' passes.0 in let le = passes.1 in ground arith,
  )

  addr-Longest : (a : Bytes) (b : Bool) → starts byte a ≡ b → Longest (Covers a) (choose b)
  addr-Longest a true e = (inr (refl, e), λ d' passes. Plen-le a (Plen-of a d' passes))
  addr-Longest a false e = (inl refl, λ d' passes. let p = Plen-of a d' passes in ground arith)

  abbrev table : Table
  table = record {
    Covers = Covers;
    lpm_addr = λ a. if eqb (length a) 4 then ok (choose (starts byte a)) else raises wrong_width;
    lpm = λ n a. choose (leb 8 n && starts byte a);
    lpm_addr-Longest = λ a o e.
        subst (Longest (Covers a)) (checked_inj (eqb (length a) 4) (choose (starts byte a)) o e)
          (addr-Longest a (starts byte a) refl);
    lpm-Longest = λ n a. choose-Longest n a (leb 8 n && starts byte a) refl;
    Covers-unique = unique;
  }

abbrev static_route : Route
static_route = record {
  handle = 1;
  prefix = record { afi = 1; bits = bits_of (10 ∷ []); text = "10.0.0.0/8"; plen = 8 };
  protocol = 1;
  admin_distance = 20;
  source = 1;
  recv_time = 5;
  metric = 7;
  nexthop = [];
}

abbrev bgp_route : Route
bgp_route = record {
  handle = 2;
  prefix = record { afi = 1; bits = bits_of (192 ∷ []); text = "192.0.0.0/8"; plen = 8 };
  protocol = 3;
  admin_distance = 20;
  source = 1;
  recv_time = 5;
  metric = 5;
  nexthop = 10 ∷ 0 ∷ 0 ∷ 1 ∷ [];
}

abbrev default_route : Route
default_route = record {
  handle = 3;
  prefix = record { afi = 1; bits = []; text = "0.0.0.0/0"; plen = 0 };
  protocol = 2;
  admin_distance = 20;
  source = 1;
  recv_time = 5;
  metric = 9;
  nexthop = [];
}

abbrev static_table : Table
static_table = table 10 none (some static_route)

abbrev rib_table : Table
rib_table = table 192 (some default_route) (some bgp_route)

abbrev resolver : Resolver
resolver = record {
  enabled = true;
  use_rib = true;
  resolve_via_default = false;
  global_rib = some (λ afi. if eqb afi 1 then some rib_table else none);
  static = λ afi. if eqb afi 1 then some static_table else none;
  kernel = λ afi. none;
  lookups = 0;
  hits = 0;
  source_hits = record { static_hits = 0; kernel_hits = 0; rib_hits = 0 };
  recursion_failures = 0;
}

-- Two lookups deep: the engine's route, and the static that covers its next hop.
abbrev far : Bytes
far = 192 ∷ 0 ∷ 2 ∷ 1 ∷ []

abbrev near : Bytes
near = 10 ∷ 1 ∷ 1 ∷ 1 ∷ []

abbrev counted_rib : Resolver
counted_rib = record resolver {
  lookups = 1;
  hits = 1;
  source_hits = record { static_hits = 0; kernel_hits = 0; rib_hits = 1 };
}

reachable-far : reachable 1 far (some 2) resolver ≡ some (true, counted_rib)
unfolding reachable resolve resolve_from step covering covering_from walk lpm
reachable-far = refl

reachable-Chain_example : Chain resolver (some 2) max_depth 1 far
reachable-Chain_example = reachable-Chain (some 2) 1 far resolver counted_rib refl reachable-far

abbrev by_bgp : Resolution
by_bgp = record {
  prefix = record { afi = 1; bits = bits_of (192 ∷ []); text = "192.0.0.0/8"; plen = 8 };
  nexthop = 10 ∷ 0 ∷ 0 ∷ 1 ∷ [];
  metric = 5;
  source = rib_source;
}

resolve-far : resolve 1 far (some 2) resolver ≡ some (some by_bgp, counted_rib)
unfolding resolve resolve_from step covering covering_from walk lpm
resolve-far = refl
