-- ===== src/Rib/Lookup.antt =====
-- The walk over covering prefixes that packets/routing/rtengine/rib/globalrib.py (`GlobalRib.lpm`)
-- and packets/routing/rtengine/rib/resolver.py (`Resolver._covering`) share. A route table, which is
-- a trie in the code, is an interface: its lookups and what they promise.
use packets.Base.{
  refl, ℕ, zero, suc, ◌-◌, ◌≤◌, ◌<◌, Bool, true, false, Option, none, some, ◌≡◌, eqb, if◌then◌else◌,
  arith, Bool-cases, inl, inr, sym, ap, ◌∙◌, eqb_iff,
}
use packets.Rib.Route.{Route, Bytes, Dest}
use packets.Rib.Trie.Ops.{Result, ok, raises}

-- The longest entry among those within a limit, if there is one.
abbrev pub Longest : (Dest → Type 0) → Option Dest → Type 0
Longest P none = (d : Dest) → P d → ⊥
Longest P (some d) = P d × ((d' : Dest) → P d' → d'.prefix.plen ≤ d.prefix.plen)

-- A route table: `Covers addr d` says that `d` is an entry whose prefix covers the address, and
-- `lpm n addr` is `lpm(Prefix(afi, n, addr))`. `lpm_addr` raises for an address that is not of the
-- table's width. A table has one entry for each prefix.
pub record Table : Type 1 where
  pub Covers : Bytes → Dest → Type 0
  pub lpm_addr : Bytes → Result (Option Dest)
  pub lpm : ℕ → Bytes → Option Dest
  pub lpm_addr-Longest : (a : Bytes) (o : Option Dest) → lpm_addr a ≡ ok o → Longest (Covers a) o
  pub lpm-Longest : (n : ℕ) (a : Bytes) → Longest (λ d. Covers a d × (d.prefix.plen ≤ n)) (lpm n a)
  pub Covers-unique :
      (a : Bytes) (d d' : Dest) → Covers a d → Covers a d' → d.prefix.plen ≡ d'.prefix.plen → d ≡ d'

module _ (accept : Dest → Bool) (table : Table) (addr : Bytes) where
  -- The `while` loop: an entry that is refused is passed over for the next shorter one.
  unfoldable pub walk : ℕ → Option Dest → Option Dest
  walk zero dest = none
  walk (suc fuel) none = none
  walk (suc fuel) (some d) =
      let rest = walk fuel (table.lpm (d.prefix.plen - 1) addr) in
      if accept d then some d else if eqb d.prefix.plen 0 then none else rest

  abbrev length_of : Option Dest → ℕ
  length_of none = 0
  length_of (some d) = d.prefix.plen

  unfoldable pub covering_from : Option Dest → Option Dest
  covering_from start = walk (suc (length_of start)) start

  abbrev Usable : Dest → Type 0
  Usable d = table.Covers addr d × (accept d ≡ true)

  -- Where the walk stands: no usable entry is longer than this one.
  abbrev Reached : Option Dest → Type 0
  Reached none = (d : Dest) → Usable d → ⊥
  Reached (some d) =
      table.Covers addr d × ((d' : Dest) → Usable d' → d'.prefix.plen ≤ d.prefix.plen)

  abbrev Shorter : Dest → Type 0
  Shorter d = (d' : Dest) → Usable d' → d'.prefix.plen < d.prefix.plen

  -- An entry that is refused leaves only shorter ones.
  refused-Shorter : (d : Dest) → Reached (some d) → accept d ≡ false → Shorter d
  refused-Shorter d at off d' passes = elim (Bool-cases (eqb d'.prefix.plen d.prefix.plen)) [
    | inl e ↦
        let same =
          table.Covers-unique addr d' d passes.0 at.0
            ((eqb_iff d'.prefix.plen d.prefix.plen).0 e) in
        let bad = sym passes.1 ∙ ap accept same ∙ off in cc
    | inr n ↦ ground (arith, at.1 d' passes)
  ]

  Shorter-Reached :
      (d : Dest)
      → Shorter d
      → (o : Option Dest)
      → Longest (λ d'. table.Covers addr d' × (d'.prefix.plen ≤ d.prefix.plen - 1)) o
      → Reached o
  Shorter-Reached d sh none none_at =
      λ d' passes. none_at d' (passes.0, omega (arith, sh d' passes))
  Shorter-Reached d sh (some e) longest =
      (longest.0.0, λ d' passes. longest.1 d' (passes.0, omega (arith, sh d' passes)))

  shorter-lt :
      (d : Dest) (fuel : ℕ)
      → eqb d.prefix.plen 0 ≡ false
      → d.prefix.plen < suc fuel
      → (o : Option Dest)
      → Longest (λ d'. table.Covers addr d' × (d'.prefix.plen ≤ d.prefix.plen - 1)) o
      → length_of o < fuel
  shorter-lt d fuel n lt none none_at = ground arith
  shorter-lt d fuel n lt (some e) longest = let le = longest.0.1 in ground arith

  -- From an entry that no usable one exceeds, the loop ends at the longest usable entry.
  walk-Longest :
      (fuel : ℕ) (start : Option Dest)
      → Reached start
      → length_of start < fuel
      → Longest Usable (walk fuel start)
  unfolding walk
  walk-Longest zero start at lt = absurd (omega arith)
  walk-Longest (suc fuel) none at lt = at
  walk-Longest (suc fuel) (some d) at lt = elim (Bool-cases (accept d)) [
    | inl on ↦ rw on ((at.0, on), at.1)
    | inr off ↦
        let shorter = refused-Shorter d at off in
        rw off (elim (Bool-cases (eqb d.prefix.plen 0)) [
          | inl z ↦ rw z (λ d' passes.
              let below = shorter d' passes in
              let e = (eqb_iff d.prefix.plen 0).0 z in absurd (omega arith))
          | inr n ↦
              let next = table.lpm (d.prefix.plen - 1) addr in
              let longest = table.lpm-Longest (d.prefix.plen - 1) addr in
              rw n (
                walk-Longest fuel next (Shorter-Reached d shorter next longest)
                  (shorter-lt d fuel n lt next longest))
        ])
  ]

  addr-Reached : (o : Option Dest) → Longest (table.Covers addr) o → Reached o
  addr-Reached none no_cover = λ d passes. no_cover d passes.0
  addr-Reached (some d) longest = (longest.0, λ d' passes. longest.1 d' passes.0)

  -- For an address of the table's width, the walk from its longest cover ends at the longest cover
  -- that is accepted, and finds none only if no cover is.
  pub covering_from-Longest :
      (o : Option Dest) → table.lpm_addr addr ≡ ok o → Longest Usable (covering_from o)
  unfolding covering_from
  covering_from-Longest o e =
      walk-Longest (suc (length_of o)) o (addr-Reached o (table.lpm_addr-Longest addr o e))
        (omega arith)

-- The test of `GlobalRib.lpm` on a destination: it has a best route, which is accepted.
abbrev pub best_passes : (Route → Bool) → Option Route → Bool
best_passes accept none = false
best_passes accept (some route) = accept route

abbrev pub winner : Option Dest → Option Route
winner none = none
winner (some d) = d.best

-- The rest of `GlobalRib.lpm` after `table.lpm_addr(addr)`, which may have raised.
abbrev pub answer_in :
    Table → Bytes → Option (Route → Bool) → Result (Option Dest) → Result (Option Route)
answer_in table addr accept (raises e) = raises e
answer_in table addr none (ok dest) = ok (winner dest)
answer_in table addr (some accept) (ok dest) =
    ok (winner (covering_from (λ d. best_passes accept d.best) table addr dest))

-- `GlobalRib.lpm` in the table of the family, if there is one.
unfoldable pub lpm : Option Table → Bytes → Option (Route → Bool) → Result (Option Route)
lpm none addr accept = ok none
lpm (some table) addr accept = answer_in table addr accept (table.lpm_addr addr)

-- What `lpm` promises of the routes that it accepts.
abbrev pub Best : (Dest → Type 0) → Option Route → Type 0
Best P none = (d : Dest) → P d → ⊥
Best P (some route) =
    (d : Dest) × P d × (d.best ≡ some route) × ((d' : Dest) → P d' → d'.prefix.plen ≤ d.prefix.plen)

module _ (accept : Route → Bool) (P : Dest → Type 0) where
  abbrev Passes : Dest → Type 0
  Passes d = P d × (best_passes accept d.best ≡ true)

  chosen-Best :
      (d : Dest)
      → Passes d
      → ((d' : Dest) → Passes d' → d'.prefix.plen ≤ d.prefix.plen)
      → (b : Option Route) → d.best ≡ b
      → Best Passes b
  chosen-Best d passes longest none e =
      let bad = sym (ap (best_passes accept) e) ∙ passes.1 in absurd (ground arith)
  chosen-Best d passes longest (some route) e = (d, passes, e, longest)

  winner-Best : (o : Option Dest) → Longest Passes o → Best Passes (winner o)
  winner-Best none longest = λ d passes. longest d passes
  winner-Best (some d) longest = chosen-Best d longest.0 longest.1 d.best refl

-- For an address of the table's width, a walk with a test on the winners ends at the longest
-- covering destination whose winner passes.
pub covering-Best :
    (table : Table) (addr : Bytes) (accept : Route → Bool) (o : Option Dest)
    → table.lpm_addr addr ≡ ok o
    → Best
        (λ d. table.Covers addr d × (best_passes accept d.best ≡ true))
        (winner (covering_from (λ d. best_passes accept d.best) table addr o))
covering-Best table addr accept o e =
    winner-Best accept (table.Covers addr)
      (covering_from (λ d. best_passes accept d.best) table addr o)
      (covering_from-Longest (λ d. best_passes accept d.best) table addr o e)

-- For an address of the table's width, a lookup with a test returns the winner of the longest
-- covering destination whose winner passes the test, and nothing only if no covering destination
-- has such a winner.
pub lpm-Best :
    (table : Table) (addr : Bytes) (accept : Route → Bool) (o : Option Dest)
    → table.lpm_addr addr ≡ ok o
    → (route : Option Route) × (lpm (some table) addr (some accept) ≡ ok route)
      × Best (λ d. table.Covers addr d × (best_passes accept d.best ≡ true)) route
unfolding lpm
lpm-Best table addr accept o e = (
  winner (covering_from (λ d. best_passes accept d.best) table addr o),
  ap (answer_in table addr (some accept)) e,
  covering-Best table addr accept o e,
)
