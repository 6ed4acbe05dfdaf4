-- ===== src/Rib/Trie/Shape.antt =====
-- packets/routing/rtengine/rib/trie.pyx: how many nodes and values a trie has. `_prune` leaves no glue
-- but where two subtrees part.
use packets.Base.{◌+◌, ◌≡◌, refl, sym, ap, Bool, true, false, Option, none, some, arith}
use mathlib.Core.Path.{subst}
use packets.Rib.Trie.Bits.{Bits}
use packets.Rib.Trie.Node.{Node, nil, node, node_exact, prune, clear_value}
use packets.Rib.Trie.Positions.{
  View, view, same, below, above, apart, child, covers_above, covers_apart, exact_same, exact_below,
  exact_outside,
}
use packets.Rib.Trie.Views.{clear_same, clear_below, clear_outside, clear_child}
use packets.Rib.Trie.Interned.{by_child}
use packets.Rib.Trie.Compact.{IsCompact, found, stored}

module _ {ℓ} {V : Type ℓ} where
  stored-prune :
      (k : Bits) (v : Option V) (l r : Node V) → stored (prune k v l r) ≡ stored (node k v l r)
  unfolding prune
  stored-prune k (some v) l r = refl
  stored-prune k none nil r = omega arith
  stored-prune k none (node lk lv ll lr) nil = omega arith
  stored-prune k none (node lk lv ll lr) (node rk rv rl rr) = refl

  stored-clear_child :
      (k : Bits) (v : Option V) (l r t : Node V) (b : Bool)
      → stored (clear_child k v l r b t) + stored (child b l r) ≡ stored (node k v l r) + stored t
  stored-clear_child k v l r nil true = omega (arith, stored-prune k v l nil)
  stored-clear_child k v l r nil false = omega (arith, stored-prune k v nil r)
  stored-clear_child k v l r (node tk tv tl tr) true = omega arith
  stored-clear_child k v l r (node tk tv tl tr) false = omega arith

  stored-clear_at :
      (k : Bits) (v : Option V) (l r : Node V) (q : Bits)
      → ((b : Bool)
          → stored (clear_value (child b l r) q) + found (node_exact (child b l r) q)
            ≡ stored (child b l r))
      → View k q
      → stored (clear_value (node k v l r) q) + found (node_exact (node k v l r) q)
        ≡ stored (node k v l r)
  stored-clear_at k v l r q ih (same e) = omega (
    arith,
    ap stored (clear_same k v l r q e),
    ap found (exact_same k v l r q e),
    stored-prune k none l r,
  )
  stored-clear_at k v l r q ih (below b s e) = omega (
    arith,
    ap stored (clear_below k v l r b q s e),
    ap found (exact_below k v l r b q s e),
    ih b,
    stored-clear_child k v l r (clear_value (child b l r) q) b,
  )
  stored-clear_at k v l r q ih (above b s e) =
      let off = covers_above k q b s e in
      omega (arith, ap stored (clear_outside k v l r q off), ap found (exact_outside k v l r q off))
  stored-clear_at k v l r q ih (apart c b s t e f) =
      let off = covers_apart k q c b s t e f in
      omega (arith, ap stored (clear_outside k v l r q off), ap found (exact_outside k v l r q off))

  pub stored-clear :
      (t : Node V) (q : Bits) → stored (clear_value t q) + found (node_exact t q) ≡ stored t
  stored-clear nil q = unfold clear_value node_exact in omega arith
  stored-clear (node k v l r) q =
      stored-clear_at k v l r q
        (by_child (λ t. stored (clear_value t q) + found (node_exact t q) ≡ stored t) l r
          (stored-clear l q) (stored-clear r q))
        (view k q)

  IsCompact-prune :
      (k : Bits) (v : Option V) (l r : Node V)
      → IsCompact l
      → IsCompact r
      → IsCompact (prune k v l r)
  unfolding prune
  IsCompact-prune k (some v) l r a b = (refl, a, b)
  IsCompact-prune k none nil r a b = b
  IsCompact-prune k none (node lk lv ll lr) nil a b = a
  IsCompact-prune k none (node lk lv ll lr) (node rk rv rl rr) a b = (refl, a, b)

  IsCompact-clear_child :
      (k : Bits) (v : Option V) (l r t : Node V) (b : Bool)
      → IsCompact (node k v l r)
      → IsCompact t
      → IsCompact (clear_child k v l r b t)
  IsCompact-clear_child k v l r nil true h c = IsCompact-prune k v l nil h.1 tt
  IsCompact-clear_child k v l r nil false h c = IsCompact-prune k v nil r tt h.2
  IsCompact-clear_child k v l r (node tk tv tl tr) true h c = (ground arith, h.1, c)
  IsCompact-clear_child k v l r (node tk tv tl tr) false h c = (ground arith, c, h.2)

  IsCompact-clear_at :
      (k : Bits) (v : Option V) (l r : Node V) (q : Bits)
      → IsCompact (node k v l r)
      → ((b : Bool) → IsCompact (clear_value (child b l r) q))
      → View k q
      → IsCompact (clear_value (node k v l r) q)
  IsCompact-clear_at k v l r q h ih (same e) =
      subst IsCompact (sym (clear_same k v l r q e)) (IsCompact-prune k none l r h.1 h.2)
  IsCompact-clear_at k v l r q h ih (below b s e) =
      subst IsCompact (sym (clear_below k v l r b q s e))
        (IsCompact-clear_child k v l r (clear_value (child b l r) q) b h (ih b))
  IsCompact-clear_at k v l r q h ih (above b s e) =
      subst IsCompact (sym (clear_outside k v l r q (covers_above k q b s e))) h
  IsCompact-clear_at k v l r q h ih (apart c b s t e f) =
      subst IsCompact (sym (clear_outside k v l r q (covers_apart k q c b s t e f))) h

  pub IsCompact-clear : (t : Node V) (q : Bits) → IsCompact t → IsCompact (clear_value t q)
  IsCompact-clear nil q h = unfold clear_value in tt
  IsCompact-clear (node k v l r) q h =
      IsCompact-clear_at k v l r q h
        (by_child (λ t. IsCompact (clear_value t q)) l r (IsCompact-clear l q h.1)
          (IsCompact-clear r q h.2))
        (view k q)
