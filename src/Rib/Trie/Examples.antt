-- ===== src/Rib/Trie/Examples.antt =====
-- packets/routing/rtengine/rib/trie.pyx and packets/routing/rtengine/rib/table.pyx: the theorems at
-- a trie of two prefixes.
use packets.Base.{
  ℕ, ◌+◌, ◌*◌, ◌≤◌, ◌≡◌, refl, sym, ap, ◌∙◌, Bool, true, false, none, some, List, [], length, eqb,
  arith, ◌∷◌, ◌==◌, if◌then◌else◌, list_key, bool_key, Bool-cases, inl, inr,
}
use mathlib.Core.Path.{subst}
use packets.Rib.Route.{Prefix, Route, Dest}
use packets.Rib.Lookup.{lpm}
use packets.Rib.Trie.Bits.{Bits, bits_of}
use packets.Rib.Trie.Node.{nil, node_exact, is_nil}
use packets.Rib.Trie.Compact.{size}
use packets.Rib.Trie.Ops.{Key, Trie, get, store}
use packets.Rib.Trie.Valid.{Op, put, delete, run, replay, IsValid, store-IsValid, exact-store}
use packets.Rib.Trie.Laws.{run-refines, size-run}
use packets.Rib.Trie.Routes.{LpmIs, trie_table, lpm-trie}

module _ {V : Type 0} where
  abbrev empty : Trie V
  empty = record { root = nil; afi = 1; count = 0 }

  empty-IsValid : IsValid empty
  empty-IsValid = record { under = tt; compact = tt; counted = refl }

abbrev key : Bits → Key
key bits = record { afi = 1; bits = bits }

abbrev changes : List (Op ℕ)
changes =
    put (key (true ∷ false ∷ [])) (some 7)
    ∷ put (key (true ∷ true ∷ [])) (some 8)
    ∷ put (key (true ∷ [])) none
    ∷ delete (key (true ∷ false ∷ []))
    ∷ []

run-refines_example :
    IsValid (run changes empty)
    × ((p : Key) → get (run changes empty) p ≡ replay 1 changes (get empty) p)
run-refines_example = run-refines changes empty empty-IsValid

size-run_example :
    size (run changes empty).root + (if is_nil (run changes empty).root then 0 else 1)
    ≤ 2 * (run changes empty).count
size-run_example = size-run changes empty empty-IsValid

module _ (plen handle : ℕ) where
  abbrev net : Prefix
  net = record { afi = 1; bits = []; text = "10.0.0.0"; plen = plen }

  abbrev dest : Dest
  dest = record {
    prefix = net;
    best = some (record {
      handle = handle;
      prefix = net;
      protocol = handle;
      admin_distance = 20;
      metric = 0;
      nexthop = [];
      source = 1;
      recv_time = 5;
    });
    routes = [];
    queued = false;
    version = handle;
  }

abbrev routes : Trie Dest
routes =
    (store (store empty (bits_of (10 ∷ [])) (dest 8 1)).0 (bits_of (10 ∷ 1 ∷ [])) (dest 16 2)).0

routes-IsValid : IsValid routes
routes-IsValid =
    store-IsValid (store empty (bits_of (10 ∷ [])) (dest 8 1)).0 (bits_of (10 ∷ 1 ∷ [])) (dest 16 2)
      (store-IsValid empty (bits_of (10 ∷ [])) (dest 8 1) empty-IsValid)

some_injective : (a b : Dest) → some a ≡ some b → a ≡ b
some_injective a b e = cc

abbrev Keyed : Trie Dest → Type 0
Keyed t = (p : Bits) (d : Dest) → node_exact t.root p ≡ some d → d.prefix.plen ≡ length p

store-Keyed :
    (t : Trie Dest) (q : Bits) (d : Dest)
    → d.prefix.plen ≡ length q
    → Keyed t
    → Keyed (store t q d).0
store-Keyed t q d e h p d' found = elim (Bool-cases (p == q)) [
  | inl same ↦
      let at = sym (exact-store t q p d) ∙ found in
      let here : some d ≡ some d' =
        subst (λ b. (if b then some d else node_exact t.root p) ≡ some d') same at in
      ap (λ d. d.prefix.plen) (sym (some_injective d d' here))
      ∙ e
      ∙ ap length (sym ((list_key.same_iff p q).0 same))
  | inr other ↦
      let at = sym (exact-store t q p d) ∙ found in
      h p d' (subst (λ b. (if b then some d else node_exact t.root p) ≡ some d') other at)
]

empty-Keyed : Keyed empty
unfolding node_exact
empty-Keyed p d e = absurd (ground arith)

routes-Keyed : Keyed routes
routes-Keyed =
    store-Keyed (store empty (bits_of (10 ∷ [])) (dest 8 1)).0 (bits_of (10 ∷ 1 ∷ [])) (dest 16 2)
      refl (store-Keyed empty (bits_of (10 ∷ [])) (dest 8 1) refl empty-Keyed)

abbrev not_two : Route → Bool
not_two r = eqb r.protocol 1

lpm-trie_example : LpmIs routes routes-IsValid routes-Keyed (10 ∷ 1 ∷ 2 ∷ 3 ∷ []) not_two (
    lpm (some (trie_table routes routes-IsValid routes-Keyed)) (10 ∷ 1 ∷ 2 ∷ 3 ∷ []) (some not_two))
lpm-trie_example = lpm-trie routes routes-IsValid routes-Keyed (10 ∷ 1 ∷ 2 ∷ 3 ∷ []) not_two
