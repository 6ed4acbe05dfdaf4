-- ===== src/Rib/Trie/Views.antt =====
-- packets/routing/rtengine/rib/trie.pyx: how a node and a prefix can lie to one another, and what
-- the searches do in each case.
use packets.Base.{◌≡◌, sym, Bool, true, false, Option, none, ◌∷◌, ◌++◌, length, arith}
use mathlib.Core.Path.{subst}
use packets.Rib.Trie.Bits.{Bits, covers, covers-append, bit-append}
use packets.Rib.Trie.Node.{Node, node, node_lpm, better, clear_value, is_nil, prune, prune_up}
use packets.Rib.Trie.Positions.{child, covers_self, eqb_below, eqb_self}

module _ {ℓ} {V : Type ℓ} (k : Bits) (v : Option V) (l r : Node V) where
  lpm_below_at :
      (best : Option (Bits × V)) (b : Bool) (s : Bits)
      → node_lpm best (node k v l r) (k ++ b ∷ s)
        ≡ node_lpm (better k v best) (child b l r) (k ++ b ∷ s)
  unfolding node_lpm
  lpm_below_at best true s =
      ground (arith, covers-append k (true ∷ s), eqb_below k s true, bit-append k s true)
  lpm_below_at best false s =
      ground (arith, covers-append k (false ∷ s), eqb_below k s false, bit-append k s false)

  pub lpm_below :
      (best : Option (Bits × V)) (b : Bool) (q s : Bits)
      → q ≡ k ++ b ∷ s
      → node_lpm best (node k v l r) q ≡ node_lpm (better k v best) (child b l r) q
  lpm_below best b q s e =
      subst (λ q. node_lpm best (node k v l r) q ≡ node_lpm (better k v best) (child b l r) q)
        (sym e) (lpm_below_at best b s)

  pub lpm_same :
      (best : Option (Bits × V)) (q : Bits)
      → k ≡ q
      → node_lpm best (node k v l r) q ≡ better k v best
  unfolding node_lpm
  lpm_same best q e =
      subst (λ q. node_lpm best (node k v l r) q ≡ better k v best) e
        (ground (arith, covers_self k))

  pub lpm_outside :
      (best : Option (Bits × V)) (q : Bits)
      → covers k q ≡ false
      → node_lpm best (node k v l r) q ≡ best
  unfolding node_lpm
  lpm_outside best q e = ground arith

  abbrev pub clear_child : Bool → Node V → Node V
  clear_child false t = prune_up (is_nil t) k v t r
  clear_child true t = prune_up (is_nil t) k v l t

  clear_below_at :
      (b : Bool) (s : Bits)
      → clear_value (node k v l r) (k ++ b ∷ s)
        ≡ clear_child b (clear_value (child b l r) (k ++ b ∷ s))
  unfolding clear_value
  clear_below_at true s = rw (covers-append k (true ∷ s), eqb_below k s true, bit-append k s true)
  clear_below_at false s =
      rw (covers-append k (false ∷ s), eqb_below k s false, bit-append k s false)

  pub clear_below :
      (b : Bool) (q s : Bits)
      → q ≡ k ++ b ∷ s
      → clear_value (node k v l r) q ≡ clear_child b (clear_value (child b l r) q)
  clear_below b q s e =
      subst (λ q. clear_value (node k v l r) q ≡ clear_child b (clear_value (child b l r) q))
        (sym e) (clear_below_at b s)

  pub clear_same : (q : Bits) → k ≡ q → clear_value (node k v l r) q ≡ prune k none l r
  unfolding clear_value
  clear_same q e =
      subst (λ q. clear_value (node k v l r) q ≡ prune k none l r) e
        (rw (covers_self k, eqb_self (length k)))

  pub clear_outside : (q : Bits) → covers k q ≡ false → clear_value (node k v l r) q ≡ node k v l r
  unfolding clear_value
  clear_outside q e = rw e
