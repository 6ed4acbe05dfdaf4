-- ===== src/Rib/Trie/Remove.antt =====
-- packets/routing/rtengine/rib/trie.pyx: what is stored after `clear_value` and `_prune`.
use packets.Base.{
  ◌≡◌, ◌≢◌, refl, append_assoc, sym, ap, ◌∙◌, Bool, true, false, not, Option, none, some, [], ◌∷◌,
  ◌++◌,
}
use packets.Rib.Trie.Bits.{Bits, covers}
use packets.Rib.Trie.Node.{Node, nil, node, node_exact, prune, prune_up, is_nil, clear_value}
use packets.Rib.Trie.Positions.{
  View, view, same, below, above, apart, child, set_child, covers_above, covers_apart, exact_same,
  exact_below, exact_outside,
}
use packets.Rib.Trie.Views.{clear_same, clear_below, clear_outside, clear_child}
use packets.Rib.Trie.Interned.{exact_off, exact_set_child}
use packets.Rib.Trie.Insert.{exact_set_child_ne, same_ne}
use packets.Rib.Trie.Order.{Under, Under-clear, Under-child, side, by_side}

module _ {ℓ} {V : Type ℓ} where
  exact-Under :
      (x : Bits) (t : Node V) (p : Bits) → Under x t → covers x p ≡ false → node_exact t p ≡ none
  exact-Under x nil p u off = unfold node_exact in refl
  exact-Under x (node k v l r) p u off = exact_off x k p v l r u.0 off

  module _ (k p : Bits) (l r : Node V) where
    lift_below :
        (b b' : Bool) (s : Bits)
        → p ≡ k ++ b' ∷ s
        → Under (side k b) (child b l r)
        → child (not b) l r ≡ nil
        → node_exact (child b l r) p ≡ node_exact (child b' l r) p
    unfolding node_exact
    lift_below true true s f u e = refl
    lift_below false false s f u e = refl
    lift_below true false s f u e =
        exact-Under (side k true) r p u (covers_apart (side k true) p k true [] s refl f)
        ∙ ap (λ t. node_exact t p) (sym e)
    lift_below false true s f u e =
        exact-Under (side k false) l p u (covers_apart (side k false) p k false [] s refl f)
        ∙ ap (λ t. node_exact t p) (sym e)

    -- A subtree in place of its parent answers as the parent did.
    lift_child :
        (b : Bool)
        → Under (side k b) (child b l r)
        → child (not b) l r ≡ nil
        → node_exact (child b l r) p ≡ node_exact (node k none l r) p
    lift_child b u e = elim (view k p) [
      | same f ↦
          exact-Under (side k b) (child b l r) p u
            (covers_above (side k b) p b [] (ap (λ x. x ++ b ∷ []) f))
          ∙ sym (exact_same k none l r p f)
      | below b' s f ↦ lift_below b b' s f u e ∙ sym (exact_below k none l r b' p s f)
      | above b' s f ↦
          exact-Under (side k b) (child b l r) p u (
            covers_above (side k b) p b' (s ++ b ∷ [])
              (ap (λ x. x ++ b ∷ []) f ∙ append_assoc p (b' ∷ s) (b ∷ [])))
          ∙ sym (exact_outside k none l r p (covers_above k p b' s f))
      | apart c b' s t f g ↦
          exact-Under (side k b) (child b l r) p u (
            covers_apart (side k b) p c b' (s ++ b ∷ []) t
              (ap (λ x. x ++ b ∷ []) f ∙ append_assoc c (b' ∷ s) (b ∷ [])) g)
          ∙ sym (exact_outside k none l r p (covers_apart k p c b' s t f g))
    ]

  prune-exact :
      (x k p : Bits) (v : Option V) (l r : Node V)
      → Under x (node k v l r)
      → node_exact (prune k v l r) p ≡ node_exact (node k v l r) p
  unfolding prune
  prune-exact x k p (some v) l r u = refl
  prune-exact x k p none nil r u = lift_child k p nil r true u.2 refl
  prune-exact x k p none (node lk lv ll lr) nil u =
      lift_child k p (node lk lv ll lr) nil false u.1 refl
  prune-exact x k p none (node lk lv ll lr) (node rk rv rl rr) u = refl

  prune_up-exact :
      (gone : Bool) (x k p : Bits) (v : Option V) (l r : Node V)
      → Under x (node k v l r)
      → node_exact (prune_up gone k v l r) p ≡ node_exact (node k v l r) p
  prune_up-exact true x k p v l r u = prune-exact x k p v l r u
  prune_up-exact false x k p v l r u = refl

  clear_child-exact :
      (x k p : Bits) (v : Option V) (l r t : Node V) (b : Bool)
      → Under x (node k v l r)
      → Under (side k b) t
      → node_exact (clear_child k v l r b t) p ≡ node_exact (set_child b k v l r t) p
  clear_child-exact x k p v l r t false u h = prune_up-exact (is_nil t) x k p v t r (u.0, h, u.2)
  clear_child-exact x k p v l r t true u h = prune_up-exact (is_nil t) x k p v l t (u.0, u.1, h)

  clear_self_at :
      (x k : Bits) (v : Option V) (l r : Node V) (q : Bits)
      → Under x (node k v l r)
      → ((b : Bool) → node_exact (clear_value (child b l r) q) q ≡ none)
      → View k q
      → node_exact (clear_value (node k v l r) q) q ≡ none
  clear_self_at x k v l r q u ih (same e) =
      ap (λ t. node_exact t q) (clear_same k v l r q e)
      ∙ prune-exact x k q none l r u
      ∙ exact_same k none l r q e
  clear_self_at x k v l r q u ih (below b s e) =
      ap (λ t. node_exact t q) (clear_below k v l r b q s e)
      ∙ clear_child-exact x k q v l r (clear_value (child b l r) q) b u
          (Under-clear (side k b) (child b l r) q (Under-child x k v l r u b))
      ∙ exact_set_child b k v l r (clear_value (child b l r) q) q s e
      ∙ ih b
  clear_self_at x k v l r q u ih (above b s e) =
      let off = covers_above k q b s e in
      ap (λ t. node_exact t q) (clear_outside k v l r q off) ∙ exact_outside k v l r q off
  clear_self_at x k v l r q u ih (apart c b s t e f) =
      let off = covers_apart k q c b s t e f in
      ap (λ t. node_exact t q) (clear_outside k v l r q off) ∙ exact_outside k v l r q off

  -- What is removed is gone.
  pub clear_self :
      (x : Bits) (t : Node V) (q : Bits) → Under x t → node_exact (clear_value t q) q ≡ none
  clear_self x nil q u = unfold clear_value node_exact in refl
  clear_self x (node k v l r) q u =
      clear_self_at x k v l r q u
        (by_side k (λ y t. node_exact (clear_value t q) q ≡ none) l r
          (clear_self (side k false) l q u.1) (clear_self (side k true) r q u.2))
        (view k q)

  clear_ne_at :
      (x k : Bits) (v : Option V) (l r : Node V) (q p : Bits)
      → Under x (node k v l r)
      → p ≢ q
      → ((b : Bool) → node_exact (clear_value (child b l r) q) p ≡ node_exact (child b l r) p)
      → View k q
      → node_exact (clear_value (node k v l r) q) p ≡ node_exact (node k v l r) p
  clear_ne_at x k v l r q p u ne ih (same e) =
      ap (λ t. node_exact t p) (clear_same k v l r q e)
      ∙ prune-exact x k p none l r u
      ∙ same_ne k v none l r q p e ne
  clear_ne_at x k v l r q p u ne ih (below b s e) =
      ap (λ t. node_exact t p) (clear_below k v l r b q s e)
      ∙ clear_child-exact x k p v l r (clear_value (child b l r) q) b u
          (Under-clear (side k b) (child b l r) q (Under-child x k v l r u b))
      ∙ exact_set_child_ne b k v l r (clear_value (child b l r) q) p (ih b)
  clear_ne_at x k v l r q p u ne ih (above b s e) =
      ap (λ t. node_exact t p) (clear_outside k v l r q (covers_above k q b s e))
  clear_ne_at x k v l r q p u ne ih (apart c b s t e f) =
      ap (λ t. node_exact t p) (clear_outside k v l r q (covers_apart k q c b s t e f))

  -- Every other prefix answers as before.
  pub clear_ne :
      (x : Bits) (t : Node V) (q p : Bits)
      → Under x t
      → p ≢ q
      → node_exact (clear_value t q) p ≡ node_exact t p
  clear_ne x nil q p u ne = unfold clear_value in refl
  clear_ne x (node k v l r) q p u ne =
      clear_ne_at x k v l r q p u ne
        (by_side k (λ y t. node_exact (clear_value t q) p ≡ node_exact t p) l r
          (clear_ne (side k false) l q p u.1 ne) (clear_ne (side k true) r q p u.2 ne))
        (view k q)
