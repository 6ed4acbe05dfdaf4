-- ===== src/Rib/Trie/Compact.antt =====
-- packets/routing/rtengine/rib/trie.pyx: how many nodes and values a trie has. `node_intern` adds
-- glue only where two subtrees part.
use packets.Base.{
  ℕ, suc, ◌+◌, ◌*◌, ◌≤◌, ◌≡◌, refl, sym, ap, Bool, true, false, not, ◌&&◌, ◌||◌, if◌then◌else◌,
  Option, none, some, arith,
}
use mathlib.Core.Path.{subst}
use packets.Rib.Trie.Bits.{Bits}
use packets.Rib.Trie.Node.{Node, nil, node, node_exact, hang, fork, node_intern, is_nil}
use packets.Rib.Trie.Positions.{
  View, view, same, below, above, apart, child, set_child, covers_above, covers_apart, intern_same,
  intern_below, intern_above, intern_apart, exact_same, exact_below, exact_outside,
}
use packets.Rib.Trie.Interned.{by_child}

abbrev pub found {ℓ} : {V : Type ℓ} → Option V → ℕ
found none = 0
found (some v) = 1

module _ {ℓ} {V : Type ℓ} where
  -- How many prefixes are stored, and how many nodes hold them.
  abbrev pub stored : Node V → ℕ
  stored nil = 0
  stored (node k v l r) = found v + (stored l + stored r)

  abbrev pub size : Node V → ℕ
  size nil = 0
  size (node k v l r) = suc (size l + size r)

  abbrev has_value : Option V → Bool
  has_value none = false
  has_value (some v) = true

  -- A node has a value or holds two subtrees apart.
  abbrev pub is_needed : Option V → Node V → Node V → Bool
  is_needed v l r = has_value v || (not (is_nil l) && not (is_nil r))

  abbrev pub IsCompact : Node V → Type 0
  IsCompact nil = Unit
  IsCompact (node k v l r) = (is_needed v l r ≡ true) × IsCompact l × IsCompact r

  -- There are fewer nodes than twice the prefixes.
  pub size_bound : (t : Node V) → IsCompact t → size t + (if is_nil t then 0 else 1) ≤ 2 * stored t
  size_bound nil c = omega arith
  size_bound (node k v l r) c =
      let a = size_bound l c.1 in let b = size_bound r c.2 in let needed = c.0 in ground arith

  module _ (w : V) where
    intern_is_node_at :
        (k : Bits) (v : Option V) (l r : Node V) (q : Bits)
        → View k q
        → is_nil (node_intern (λ _. some w) (node k v l r) q) ≡ false
    intern_is_node_at k v l r q (same e) = ap is_nil (intern_same k v l r (λ _. some w) q e)
    intern_is_node_at k v l r q (below true s e) =
        ap is_nil (intern_below k v l r (λ _. some w) true q s e)
    intern_is_node_at k v l r q (below false s e) =
        ap is_nil (intern_below k v l r (λ _. some w) false q s e)
    intern_is_node_at k v l r q (above true s e) =
        ap is_nil (intern_above k v l r (λ _. some w) true q s e)
    intern_is_node_at k v l r q (above false s e) =
        ap is_nil (intern_above k v l r (λ _. some w) false q s e)
    intern_is_node_at k v l r q (apart c true s t e f) =
        ap is_nil (intern_apart k v l r (λ _. some w) q c true s t e f)
    intern_is_node_at k v l r q (apart c false s t e f) =
        ap is_nil (intern_apart k v l r (λ _. some w) q c false s t e f)

    intern_is_node : (t : Node V) (q : Bits) → is_nil (node_intern (λ _. some w) t q) ≡ false
    intern_is_node nil q = unfold node_intern in refl
    intern_is_node (node k v l r) q = intern_is_node_at k v l r q (view k q)

    IsCompact-set_child :
        (b : Bool) (k : Bits) (v : Option V) (l r t : Node V)
        → IsCompact (node k v l r)
        → is_nil t ≡ false
        → IsCompact t
        → IsCompact (set_child b k v l r t)
    IsCompact-set_child true k v l r t c n h = (ground arith, c.1, h)
    IsCompact-set_child false k v l r t c n h = (ground arith, h, c.2)

    IsCompact-hang :
        (q : Bits) (b : Bool) (n : Node V) → IsCompact n → IsCompact (hang q (some w) b n)
    IsCompact-hang q true n c = (refl, tt, c)
    IsCompact-hang q false n c = (refl, c, tt)

    IsCompact-fork :
        (c q : Bits) (b : Bool) (k : Bits) (v : Option V) (l r : Node V)
        → IsCompact (node k v l r)
        → IsCompact (fork c b (node q (some w) nil nil) (node k v l r))
    IsCompact-fork c q true k v l r h = (refl, h, (refl, tt, tt))
    IsCompact-fork c q false k v l r h = (refl, (refl, tt, tt), h)

    IsCompact-intern_at :
        (k : Bits) (v : Option V) (l r : Node V) (q : Bits)
        → IsCompact (node k v l r)
        → ((b : Bool) → IsCompact (node_intern (λ _. some w) (child b l r) q))
        → View k q
        → IsCompact (node_intern (λ _. some w) (node k v l r) q)
    IsCompact-intern_at k v l r q h ih (same e) =
        subst IsCompact (sym (intern_same k v l r (λ _. some w) q e)) (refl, h.1, h.2)
    IsCompact-intern_at k v l r q h ih (below b s e) =
        subst IsCompact (sym (intern_below k v l r (λ _. some w) b q s e))
          (IsCompact-set_child b k v l r _ h (intern_is_node (child b l r) q) (ih b))
    IsCompact-intern_at k v l r q h ih (above b s e) =
        subst IsCompact (sym (intern_above k v l r (λ _. some w) b q s e))
          (IsCompact-hang q b (node k v l r) h)
    IsCompact-intern_at k v l r q h ih (apart c b s t e f) =
        subst IsCompact (sym (intern_apart k v l r (λ _. some w) q c b s t e f))
          (IsCompact-fork c q (not b) k v l r h)

    pub IsCompact-intern :
        (t : Node V) (q : Bits) → IsCompact t → IsCompact (node_intern (λ _. some w) t q)
    IsCompact-intern nil q h = unfold node_intern in (refl, tt, tt)
    IsCompact-intern (node k v l r) q h =
        IsCompact-intern_at k v l r q h
          (by_child (λ t. IsCompact (node_intern (λ _. some w) t q)) l r (IsCompact-intern l q h.1)
            (IsCompact-intern r q h.2))
          (view k q)

    stored-set_child :
        (b : Bool) (k : Bits) (v : Option V) (l r t : Node V)
        → stored (set_child b k v l r t) + stored (child b l r) ≡ stored (node k v l r) + stored t
    stored-set_child true k v l r t = omega arith
    stored-set_child false k v l r t = omega arith

    stored-hang : (q : Bits) (b : Bool) (n : Node V) → stored (hang q (some w) b n) ≡ stored n + 1
    stored-hang q true n = omega arith
    stored-hang q false n = omega arith

    stored-fork :
        (c q : Bits) (b : Bool) (n : Node V)
        → stored (fork c b (node q (some w) nil nil) n) ≡ stored n + 1
    stored-fork c q true n = omega arith
    stored-fork c q false n = omega arith

    stored-intern_at :
        (k : Bits) (v : Option V) (l r : Node V) (q : Bits)
        → ((b : Bool)
            → stored (node_intern (λ _. some w) (child b l r) q)
                + found (node_exact (child b l r) q)
              ≡ stored (child b l r) + 1)
        → View k q
        → stored (node_intern (λ _. some w) (node k v l r) q) + found (node_exact (node k v l r) q)
          ≡ stored (node k v l r) + 1
    stored-intern_at k v l r q ih (same e) = omega (
      arith,
      ap stored (intern_same k v l r (λ _. some w) q e),
      ap found (exact_same k v l r q e),
    )
    stored-intern_at k v l r q ih (below b s e) = omega (
      arith,
      ap stored (intern_below k v l r (λ _. some w) b q s e),
      ap found (exact_below k v l r b q s e),
      ih b,
      stored-set_child b k v l r (node_intern (λ _. some w) (child b l r) q),
    )
    stored-intern_at k v l r q ih (above b s e) = omega (
      arith,
      ap stored (intern_above k v l r (λ _. some w) b q s e),
      ap found (exact_outside k v l r q (covers_above k q b s e)),
      stored-hang q b (node k v l r),
    )
    stored-intern_at k v l r q ih (apart c b s t e f) = omega (
      arith,
      ap stored (intern_apart k v l r (λ _. some w) q c b s t e f),
      ap found (exact_outside k v l r q (covers_apart k q c b s t e f)),
      stored-fork c q (not b) (node k v l r),
    )

    pub stored-intern :
        (t : Node V) (q : Bits)
        → stored (node_intern (λ _. some w) t q) + found (node_exact t q) ≡ stored t + 1
    stored-intern nil q = unfold node_intern node_exact in omega arith
    stored-intern (node k v l r) q =
        stored-intern_at k v l r q
          (by_child
            (λ t. stored (node_intern (λ _. some w) t q) + found (node_exact t q) ≡ stored t + 1) l
            r (stored-intern l q) (stored-intern r q))
          (view k q)
