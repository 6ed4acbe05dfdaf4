-- ===== src/Rib/Trie/Longest.antt =====
-- packets/routing/rtengine/rib/trie.pyx: `node_lpm` finds the longest stored prefix that covers.
use packets.Base.{
  ◌≤◌, ◌≡◌, refl, sym, ap, ◌∙◌, Bool, true, false, Option, none, some, ◌∷◌, ◌++◌, length,
  length-append, ◌⊎◌, inl, inr, arith,
}
use mathlib.Core.Path.{subst}
use packets.Rib.Trie.Bits.{Bits, covers}
use packets.Rib.Trie.Node.{Node, nil, node, node_exact, node_lpm, better}
use packets.Rib.Trie.Positions.{
  View, view, same, below, above, apart, child, covers_above, covers_apart, exact_same, exact_below,
  exact_outside,
}
use packets.Rib.Trie.Views.{lpm_same, lpm_below, lpm_outside}
use packets.Rib.Trie.Interned.{Extends, Extends-trans, covers-Extends, true_ne_false}
use packets.Rib.Trie.Order.{
  Under, Under-child, stored-Extends, length-Extends, Extends-refl, side, Extends-of_side,
  bit_unique, extend_at, none_ne_some, by_side,
}

module _ {ℓ} {V : Type ℓ} where
  -- A stored prefix that covers the one that is asked for.
  abbrev pub Cover : Node V → Bits → Bits → V → Type ℓ
  Cover t q p v = (node_exact t p ≡ some v) × Extends p q

  -- What a search adds to the best so far: nothing, or the longest cover.
  pub data Found (best : Option (Bits × V)) (t : Node V) (q : Bits) (r : Option (Bits × V))
      : Type ℓ where
    kept : ((p : Bits) (v : V) → Cover t q p v → ⊥) → r ≡ best → Found best t q r
    longest :
        (p : Bits) (v : V)
        → Cover t q p v
        → ((p' : Bits) (v' : V) → Cover t q p' v' → length p' ≤ length p)
        → r ≡ some (p, v)
        → Found best t q r

  module _ (k : Bits) (l r : Node V) (q : Bits) where
    -- Above the node's prefix and beside it nothing of the node covers.
    no-Cover :
        (w : Option V) → covers k q ≡ false → (p : Bits) (v : V) → Cover (node k w l r) q p v → ⊥
    no-Cover w off p v (e, pq) = elim (view k p) [
      | same f ↦
          true_ne_false (sym (covers-Extends k q (subst (λ p. Extends p q) (sym f) pq)) ∙ off)
      | below b s f ↦
          true_ne_false (sym (covers-Extends k q (Extends-trans k p q (b ∷ s, f) pq)) ∙ off)
      | above b s f ↦ none_ne_some v (sym (exact_outside k w l r p (covers_above k p b s f)) ∙ e)
      | apart c b s t f g ↦
          none_ne_some v (sym (exact_outside k w l r p (covers_apart k p c b s t f g)) ∙ e)
    ]

    -- A cover is the node's own prefix, or one of the subtree that the prefix leads to.
    Cover-cases :
        (w : Option V) (b : Bool) (s : Bits)
        → q ≡ k ++ b ∷ s
        → (p : Bits) (v : V) → Cover (node k w l r) q p v
        → ((k ≡ p) × (w ≡ some v)) ⊎ Cover (child b l r) q p v
    Cover-cases w b s e p v (h, pq) = elim (view k p) [
      | same f ↦ inl (f, sym (exact_same k w l r p f) ∙ h)
      | below b' s' f ↦
          let (u, g) = extend_at p q k s' b' f pq in
          let same_side = bit_unique q k u s b' b g e in
          inr (
            sym (ap (λ b. node_exact (child b l r) p) same_side)
                ∙ sym (exact_below k w l r b' p s' f)
                ∙ h,
            pq,
          )
      | above b' s' f ↦
          absurd (none_ne_some v (sym (exact_outside k w l r p (covers_above k p b' s' f)) ∙ h))
      | apart c b' s' t f g ↦
          absurd
            (none_ne_some v (sym (exact_outside k w l r p (covers_apart k p c b' s' t f g)) ∙ h))
    ]

    -- The node's own prefix is the only cover of itself.
    Cover-same :
        (w : Option V)
        → k ≡ q
        → (p : Bits) (v : V) → Cover (node k w l r) q p v
        → (k ≡ p) × (w ≡ some v)
    Cover-same w e p v (h, pq) = elim (view k p) [
      | same f ↦ (f, sym (exact_same k w l r p f) ∙ h)
      | below b' s' f ↦
          let le = length-Extends p q pq in
          absurd (omega (arith, ap length e, ap length f, length-append k (b' ∷ s')))
      | above b' s' f ↦
          absurd (none_ne_some v (sym (exact_outside k w l r p (covers_above k p b' s' f)) ∙ h))
      | apart c b' s' t f g ↦
          absurd
            (none_ne_some v (sym (exact_outside k w l r p (covers_apart k p c b' s' t f g)) ∙ h))
    ]

    Found-same :
        (best : Option (Bits × V)) (w : Option V)
        → k ≡ q
        → Found best (node k w l r) q (better k w best)
    Found-same best none e = kept (λ p v c. none_ne_some v (Cover-same none e p v c).1) refl
    Found-same best (some x) e =
        longest k x (exact_same k (some x) l r k refl, subst (Extends k) e (Extends-refl k))
          (λ p v c. length-Extends p k (subst (Extends p) (sym e) c.1)) refl

    Found-below :
        (best : Option (Bits × V)) (w : Option V) (b : Bool) (s : Bits) (x : Bits)
        (res : Option (Bits × V))
        → q ≡ k ++ b ∷ s
        → Under x (node k w l r)
        → Found (better k w best) (child b l r) q res
        → Found best (node k w l r) q res
    Found-below best w b s x res e u (longest p v c most g) =
        let under = stored-Extends (side k b) (child b l r) p v (Under-child x k w l r u b) c.0 in
        let (s', f) = Extends-of_side k p b under in
        longest p v (exact_below k w l r b p s' f ∙ c.0, c.1)
          (λ p' v' c'. elim (Cover-cases w b s e p' v' c') [
            | inl h ↦ omega (arith, ap length h.0, length-Extends k p (b ∷ s', f))
            | inr h ↦ most p' v' h
          ])
          g
    Found-below best none b s x res e u (kept nothing g) =
        kept
          (λ p v c. elim (Cover-cases none b s e p v c) [
            | inl h ↦ none_ne_some v h.1
            | inr h ↦ nothing p v h
          ])
          g
    Found-below best (some y) b s x res e u (kept nothing g) =
        longest k y (exact_same k (some y) l r k refl, (b ∷ s, e))
          (λ p v c. elim (Cover-cases (some y) b s e p v c) [
            | inl h ↦ omega (arith, ap length h.0)
            | inr h ↦ absurd (nothing p v h)
          ])
          g

  Found-at :
      (best : Option (Bits × V)) (k : Bits) (w : Option V) (l r : Node V) (q x : Bits)
      → Under x (node k w l r)
      → ((b : Bool)
          → Found (better k w best) (child b l r) q (node_lpm (better k w best) (child b l r) q))
      → View k q
      → Found best (node k w l r) q (node_lpm best (node k w l r) q)
  Found-at best k w l r q x u ih (same e) =
      subst (Found best (node k w l r) q) (sym (lpm_same k w l r best q e))
        (Found-same k l r q best w e)
  Found-at best k w l r q x u ih (below b s e) =
      subst (Found best (node k w l r) q) (sym (lpm_below k w l r best b q s e))
        (Found-below k l r q best w b s x _ e u (ih b))
  Found-at best k w l r q x u ih (above b s e) =
      let off = covers_above k q b s e in
      kept (no-Cover k l r q w off) (lpm_outside k w l r best q off)
  Found-at best k w l r q x u ih (apart c b s t e f) =
      let off = covers_apart k q c b s t e f in
      kept (no-Cover k l r q w off) (lpm_outside k w l r best q off)

  -- The search returns the longest of the stored prefixes that cover, or the best so far if none
  -- does.
  pub node_lpm-Found :
      (best : Option (Bits × V)) (t : Node V) (q x : Bits)
      → Under x t
      → Found best t q (node_lpm best t q)
  node_lpm-Found best nil q x u =
      kept (λ p v c. unfold node_exact in none_ne_some v c.0) (unfold node_lpm in refl)
  node_lpm-Found best (node k w l r) q x u =
      Found-at best k w l r q x u
        (by_side k (λ y t. Found (better k w best) t q (node_lpm (better k w best) t q)) l r
          (node_lpm-Found (better k w best) l q (side k false) u.1)
          (node_lpm-Found (better k w best) r q (side k true) u.2))
        (view k q)
