-- ===== src/Rib/Trie/Interned.antt =====
-- packets/routing/rtengine/rib/trie.pyx: the prefix of the node that `node_intern` returns.
use packets.Base.{
  ◌≡◌, ◌≢◌, refl, sym, ap, ◌∙◌, Bool, true, false, not, Option, none, ◌∷◌, ◌++◌, append_assoc,
}
use mathlib.Core.Path.{subst}
use packets.Rib.Trie.Bits.{Bits, covers, covers-append}
use packets.Rib.Trie.Node.{Node, nil, node, node_exact, hang, fork, node_intern}
use packets.Rib.Trie.Positions.{
  View, view, same, below, above, apart, child, set_child, covers_above, covers_apart, exact_same,
  exact_below, exact_outside, intern_same, intern_below, intern_above, intern_apart,
}

pub true_ne_false : true ≢ false
true_ne_false e = cc

-- `q` lies at or below `k`.
abbrev pub Extends : Bits → Bits → Type 0
Extends k q = (s : Bits) × (q ≡ k ++ s)

pub covers-Extends : (k q : Bits) → Extends k q → covers k q ≡ true
covers-Extends k q (s, e) = subst (λ q. covers k q ≡ true) (sym e) (covers-append k s)

pub Extends-trans : (a b c : Bits) → Extends a b → Extends b c → Extends a c
Extends-trans a b c (s, e) (t, f) = (s ++ t, f ∙ ap (λ x. x ++ t) e ∙ append_assoc a s t)

module _ {ℓ} {V : Type ℓ} where
  -- A node holds nothing outside of a prefix that covers it.
  pub exact_off :
      (x k p : Bits) (v : Option V) (l r : Node V)
      → Extends x k
      → covers x p ≡ false
      → node_exact (node k v l r) p ≡ none
  exact_off x k p v l r at off = elim (view k p) [
    | same e ↦
        let on = covers-Extends x p (subst (Extends x) e at) in
        absurd (true_ne_false (sym on ∙ off))
    | below b s e ↦
        let on = covers-Extends x p (Extends-trans x k p at (b ∷ s, e)) in
        absurd (true_ne_false (sym on ∙ off))
    | above b s e ↦ exact_outside k v l r p (covers_above k p b s e)
    | apart c b s t e f ↦ exact_outside k v l r p (covers_apart k p c b s t e f)
  ]

  pub exact_single_ne : (q p : Bits) (w : Option V) → p ≢ q → node_exact (node q w nil nil) p ≡ none
  unfolding node_exact
  exact_single_ne q p w ne = elim (view q p) [
    | same e ↦ absurd (ne (sym e))
    | below true s e ↦ exact_below q w nil nil true p s e
    | below false s e ↦ exact_below q w nil nil false p s e
    | above b s e ↦ exact_outside q w nil nil p (covers_above q p b s e)
    | apart c b s t e f ↦ exact_outside q w nil nil p (covers_apart q p c b s t e f)
  ]

  pub exact_set_child :
      (b : Bool) (k : Bits) (v : Option V) (l r t : Node V) (q s : Bits)
      → q ≡ k ++ b ∷ s
      → node_exact (set_child b k v l r t) q ≡ node_exact t q
  exact_set_child true k v l r t q s e = exact_below k v l t true q s e
  exact_set_child false k v l r t q s e = exact_below k v t r false q s e

  exact_hang : (q : Bits) (w : Option V) (b : Bool) (n : Node V) → node_exact (hang q w b n) q ≡ w
  exact_hang q w true n = exact_same q w nil n q refl
  exact_hang q w false n = exact_same q w n nil q refl

  exact_fork_new :
      (c q t : Bits) (b : Bool) (w : Option V) (n : Node V)
      → q ≡ c ++ b ∷ t
      → node_exact (fork c b (node q w nil nil) n) q ≡ w
  exact_fork_new c q t true w n e =
      exact_below c none n (node q w nil nil) true q t e ∙ exact_same q w nil nil q refl
  exact_fork_new c q t false w n e =
      exact_below c none (node q w nil nil) n false q t e ∙ exact_same q w nil nil q refl

  pub by_child {κ} : (P : Node V → Type κ) (l r : Node V) → P l → P r → (b : Bool) → P (child b l r)
  by_child P l r x y false = x
  by_child P l r x y true = y

  module _ (change : Option V → Option V) where
    intern_self_at :
        (k : Bits) (v : Option V) (l r : Node V) (q : Bits)
        → ((b : Bool)
            → node_exact (node_intern change (child b l r) q) q
              ≡ change (node_exact (child b l r) q))
        → View k q
        → node_exact (node_intern change (node k v l r) q) q ≡ change (node_exact (node k v l r) q)
    intern_self_at k v l r q ih (same e) =
        ap (λ t. node_exact t q) (intern_same k v l r change q e)
        ∙ exact_same k (change v) l r q e
        ∙ ap change (sym (exact_same k v l r q e))
    intern_self_at k v l r q ih (below b s e) =
        ap (λ t. node_exact t q) (intern_below k v l r change b q s e)
        ∙ exact_set_child b k v l r (node_intern change (child b l r) q) q s e
        ∙ ih b
        ∙ ap change (sym (exact_below k v l r b q s e))
    intern_self_at k v l r q ih (above b s e) =
        ap (λ t. node_exact t q) (intern_above k v l r change b q s e)
        ∙ exact_hang q (change none) b (node k v l r)
        ∙ ap change (sym (exact_outside k v l r q (covers_above k q b s e)))
    intern_self_at k v l r q ih (apart c b s t e f) =
        ap (λ t. node_exact t q) (intern_apart k v l r change q c b s t e f)
        ∙ exact_fork_new c q t (not b) (change none) (node k v l r) f
        ∙ ap change (sym (exact_outside k v l r q (covers_apart k q c b s t e f)))

    -- At the prefix itself the value is changed.
    pub intern_self :
        (t : Node V) (q : Bits) → node_exact (node_intern change t q) q ≡ change (node_exact t q)
    intern_self nil q = unfold node_intern node_exact in exact_same q (change none) nil nil q refl
    intern_self (node k v l r) q =
        intern_self_at k v l r q
          (by_child (λ t. node_exact (node_intern change t q) q ≡ change (node_exact t q)) l r
            (intern_self l q) (intern_self r q))
          (view k q)
