-- ===== src/Rib/Trie/Insert.antt =====
-- packets/routing/rtengine/rib/trie.pyx: what is stored after `node_intern`.
use packets.Base.{◌≡◌, ◌≢◌, refl, sym, ap, ◌∙◌, Bool, true, false, not, Option, none, ◌∷◌, ◌++◌}
use packets.Rib.Trie.Bits.{Bits, covers}
use packets.Rib.Trie.Node.{Node, nil, node, node_exact, hang, fork, node_intern}
use packets.Rib.Trie.Positions.{
  View, view, same, below, above, apart, child, set_child, covers_above, covers_apart, exact_same,
  exact_below, exact_outside, intern_same, intern_below, intern_above, intern_apart,
}
use packets.Rib.Trie.Interned.{by_child, exact_off, exact_single_ne}

module _ {ℓ} {V : Type ℓ} where
  set_child_ne :
      (b b' : Bool) (k : Bits) (v : Option V) (l r t : Node V) (p s : Bits)
      → p ≡ k ++ b' ∷ s
      → node_exact t p ≡ node_exact (child b l r) p
      → node_exact (set_child b k v l r t) p ≡ node_exact (node k v l r) p
  set_child_ne true true k v l r t p s e h =
      exact_below k v l t true p s e ∙ h ∙ sym (exact_below k v l r true p s e)
  set_child_ne false false k v l r t p s e h =
      exact_below k v t r false p s e ∙ h ∙ sym (exact_below k v l r false p s e)
  set_child_ne true false k v l r t p s e h =
      exact_below k v l t false p s e ∙ sym (exact_below k v l r false p s e)
  set_child_ne false true k v l r t p s e h =
      exact_below k v t r true p s e ∙ sym (exact_below k v l r true p s e)

  set_child_same :
      (b : Bool) (k : Bits) (v : Option V) (l r t : Node V) (p : Bits)
      → k ≡ p
      → node_exact (set_child b k v l r t) p ≡ v
  set_child_same true k v l r t p e = exact_same k v l t p e
  set_child_same false k v l r t p e = exact_same k v t r p e

  set_child_off :
      (b : Bool) (k : Bits) (v : Option V) (l r t : Node V) (p : Bits)
      → covers k p ≡ false
      → node_exact (set_child b k v l r t) p ≡ none
  set_child_off true k v l r t p e = exact_outside k v l t p e
  set_child_off false k v l r t p e = exact_outside k v t r p e

  -- A subtree that answers a prefix as before leaves the node's answer.
  pub exact_set_child_ne :
      (b : Bool) (k : Bits) (v : Option V) (l r t : Node V) (p : Bits)
      → node_exact t p ≡ node_exact (child b l r) p
      → node_exact (set_child b k v l r t) p ≡ node_exact (node k v l r) p
  exact_set_child_ne b k v l r t p h = elim (view k p) [
    | same e ↦ set_child_same b k v l r t p e ∙ sym (exact_same k v l r p e)
    | below b' s e ↦ set_child_ne b b' k v l r t p s e h
    | above b' s e ↦
        set_child_off b k v l r t p (covers_above k p b' s e)
        ∙ sym (exact_outside k v l r p (covers_above k p b' s e))
    | apart c b' s t' e f ↦
        set_child_off b k v l r t p (covers_apart k p c b' s t' e f)
        ∙ sym (exact_outside k v l r p (covers_apart k p c b' s t' e f))
  ]

  hang_off :
      (q : Bits) (w : Option V) (b : Bool) (n : Node V) (p : Bits)
      → covers q p ≡ false
      → node_exact (hang q w b n) p ≡ none
  hang_off q w true n p e = exact_outside q w nil n p e
  hang_off q w false n p e = exact_outside q w n nil p e

  hang_below :
      (q : Bits) (w : Option V) (b b' : Bool) (k : Bits) (v : Option V) (l r : Node V)
      (p s s' : Bits)
      → k ≡ q ++ b ∷ s
      → p ≡ q ++ b' ∷ s'
      → node_exact (hang q w b (node k v l r)) p ≡ node_exact (node k v l r) p
  unfolding node_exact
  hang_below q w true true k v l r p s s' e e' = exact_below q w nil (node k v l r) true p s' e'
  hang_below q w false false k v l r p s s' e e' = exact_below q w (node k v l r) nil false p s' e'
  hang_below q w true false k v l r p s s' e e' =
      exact_below q w nil (node k v l r) false p s' e'
      ∙ sym (exact_outside k v l r p (covers_apart k p q true s s' e e'))
  hang_below q w false true k v l r p s s' e e' =
      exact_below q w (node k v l r) nil true p s' e'
      ∙ sym (exact_outside k v l r p (covers_apart k p q false s s' e e'))

  hang_ne :
      (q : Bits) (w : Option V) (b : Bool) (k : Bits) (v : Option V) (l r : Node V) (p s : Bits)
      → k ≡ q ++ b ∷ s
      → p ≢ q
      → node_exact (hang q w b (node k v l r)) p ≡ node_exact (node k v l r) p
  hang_ne q w b k v l r p s e ne = elim (view q p) [
    | same f ↦ absurd (ne (sym f))
    | below b' s' e' ↦ hang_below q w b b' k v l r p s s' e e'
    | above b' s' e' ↦
        let off = covers_above q p b' s' e' in
        hang_off q w b (node k v l r) p off ∙ sym (exact_off q k p v l r (b ∷ s, e) off)
    | apart c b' s' t' e' f' ↦
        let off = covers_apart q p c b' s' t' e' f' in
        hang_off q w b (node k v l r) p off ∙ sym (exact_off q k p v l r (b ∷ s, e) off)
  ]

  fork_same :
      (c : Bits) (b : Bool) (m n : Node V) (p : Bits) → c ≡ p → node_exact (fork c b m n) p ≡ none
  fork_same c true m n p e = exact_same c none n m p e
  fork_same c false m n p e = exact_same c none m n p e

  fork_off :
      (c : Bits) (b : Bool) (m n : Node V) (p : Bits)
      → covers c p ≡ false
      → node_exact (fork c b m n) p ≡ none
  fork_off c true m n p e = exact_outside c none n m p e
  fork_off c false m n p e = exact_outside c none m n p e

  fork_below :
      (c q t : Bits) (w : Option V) (b b' : Bool) (k : Bits) (v : Option V) (l r : Node V)
      (p s s' : Bits)
      → k ≡ c ++ b ∷ s
      → p ≡ c ++ b' ∷ s'
      → p ≢ q
      → node_exact (fork c (not b) (node q w nil nil) (node k v l r)) p
        ≡ node_exact (node k v l r) p
  fork_below c q t w true true k v l r p s s' e e' ne =
      exact_below c none (node q w nil nil) (node k v l r) true p s' e'
  fork_below c q t w false false k v l r p s s' e e' ne =
      exact_below c none (node k v l r) (node q w nil nil) false p s' e'
  fork_below c q t w true false k v l r p s s' e e' ne =
      exact_below c none (node q w nil nil) (node k v l r) false p s' e'
      ∙ exact_single_ne q p w ne
      ∙ sym (exact_outside k v l r p (covers_apart k p c true s s' e e'))
  fork_below c q t w false true k v l r p s s' e e' ne =
      exact_below c none (node k v l r) (node q w nil nil) true p s' e'
      ∙ exact_single_ne q p w ne
      ∙ sym (exact_outside k v l r p (covers_apart k p c false s s' e e'))

  fork_ne :
      (c q t : Bits) (w : Option V) (b : Bool) (k : Bits) (v : Option V) (l r : Node V) (p s : Bits)
      → k ≡ c ++ b ∷ s
      → p ≢ q
      → node_exact (fork c (not b) (node q w nil nil) (node k v l r)) p
        ≡ node_exact (node k v l r) p
  fork_ne c q t w b k v l r p s e ne = elim (view c p) [
    | same f ↦
        fork_same c (not b) (node q w nil nil) (node k v l r) p f
        ∙ sym (exact_outside k v l r p (covers_above k p b s (e ∙ ap (λ x. x ++ b ∷ s) f)))
    | below b' s' e' ↦ fork_below c q t w b b' k v l r p s s' e e' ne
    | above b' s' e' ↦
        let off = covers_above c p b' s' e' in
        fork_off c (not b) (node q w nil nil) (node k v l r) p off
        ∙ sym (exact_off c k p v l r (b ∷ s, e) off)
    | apart c' b' s' t' e' f' ↦
        let off = covers_apart c p c' b' s' t' e' f' in
        fork_off c (not b) (node q w nil nil) (node k v l r) p off
        ∙ sym (exact_off c k p v l r (b ∷ s, e) off)
  ]

  pub same_ne :
      (k : Bits) (v w : Option V) (l r : Node V) (q p : Bits)
      → k ≡ q
      → p ≢ q
      → node_exact (node k w l r) p ≡ node_exact (node k v l r) p
  same_ne k v w l r q p e ne = elim (view k p) [
    | same f ↦ absurd (ne (sym f ∙ e))
    | below b s f ↦ exact_below k w l r b p s f ∙ sym (exact_below k v l r b p s f)
    | above b s f ↦
        let off = covers_above k p b s f in
        exact_outside k w l r p off ∙ sym (exact_outside k v l r p off)
    | apart c b s t f g ↦
        let off = covers_apart k p c b s t f g in
        exact_outside k w l r p off ∙ sym (exact_outside k v l r p off)
  ]

  module _ (change : Option V → Option V) where
    intern_ne_at :
        (k : Bits) (v : Option V) (l r : Node V) (q p : Bits)
        → p ≢ q
        → ((b : Bool)
            → node_exact (node_intern change (child b l r) q) p ≡ node_exact (child b l r) p)
        → View k q
        → node_exact (node_intern change (node k v l r) q) p ≡ node_exact (node k v l r) p
    intern_ne_at k v l r q p ne ih (same e) =
        ap (λ t. node_exact t p) (intern_same k v l r change q e)
        ∙ same_ne k v (change v) l r q p e ne
    intern_ne_at k v l r q p ne ih (below b s e) =
        ap (λ t. node_exact t p) (intern_below k v l r change b q s e)
        ∙ exact_set_child_ne b k v l r (node_intern change (child b l r) q) p (ih b)
    intern_ne_at k v l r q p ne ih (above b s e) =
        ap (λ t. node_exact t p) (intern_above k v l r change b q s e)
        ∙ hang_ne q (change none) b k v l r p s e ne
    intern_ne_at k v l r q p ne ih (apart c b s t e f) =
        ap (λ t. node_exact t p) (intern_apart k v l r change q c b s t e f)
        ∙ fork_ne c q t (change none) b k v l r p s e ne

    -- Every other prefix answers as before.
    pub intern_ne :
        (t : Node V) (q p : Bits) → p ≢ q → node_exact (node_intern change t q) p ≡ node_exact t p
    intern_ne nil q p ne =
        unfold node_intern in exact_single_ne q p (change none) ne ∙ unfold node_exact in refl
    intern_ne (node k v l r) q p ne =
        intern_ne_at k v l r q p ne
          (by_child (λ t. node_exact (node_intern change t q) p ≡ node_exact t p) l r
            (intern_ne l q p ne) (intern_ne r q p ne))
          (view k q)
