-- ===== src/Rib/Trie/Order.antt =====
-- packets/routing/rtengine/rib/trie.pyx: every node lies under its parent, on the side that the next
-- bit says.
use packets.Base.{
  ◌≤◌, ◌≡◌, ◌≢◌, refl, sym, ap, ◌∙◌, append_assoc, append-nil, Bool, true, false, not, Option, none,
  some, [], ◌∷◌, ◌++◌, length, length-append, Bool-cases, inl, inr, arith,
}
use mathlib.Core.Path.{subst}
use packets.Rib.Trie.Bits.{Bits, covers, pfx_bit, bit-append}
use packets.Rib.Trie.Node.{
  Node, nil, node, node_exact, hang, fork, node_intern, prune, prune_up, is_nil, clear_value,
}
use packets.Rib.Trie.Positions.{
  View, view, same, below, above, apart, child, set_child, covers_above, covers_apart, intern_same,
  intern_below, intern_above, intern_apart,
}
use packets.Rib.Trie.Views.{clear_same, clear_below, clear_outside, clear_child}
use packets.Rib.Trie.Interned.{Extends, Extends-trans, exact_off, by_child, true_ne_false}

pub Extends-refl : (k : Bits) → Extends k k
Extends-refl k = ([], sym (append-nil k))

pub Extends-of_covers : (k q : Bits) → covers k q ≡ true → Extends k q
Extends-of_covers k q on = elim (view k q) [
  | same e ↦ subst (Extends k) e (Extends-refl k)
  | below b s e ↦ (b ∷ s, e)
  | above b s e ↦ absurd (true_ne_false (sym on ∙ covers_above k q b s e))
  | apart c b s t e f ↦ absurd (true_ne_false (sym on ∙ covers_apart k q c b s t e f))
]

pub length-Extends : (k q : Bits) → Extends k q → length k ≤ length q
length-Extends k q (s, e) = omega (arith, ap length e, length-append k s)

-- The side of a prefix that a bit says.
abbrev pub side : Bits → Bool → Bits
side k b = k ++ b ∷ []

pub side-Extends : (k q s : Bits) (b : Bool) → q ≡ k ++ b ∷ s → Extends (side k b) q
side-Extends k q s b e = (s, e ∙ sym (append_assoc k (b ∷ []) s))

pub Extends-of_side : (k q : Bits) (b : Bool) → Extends (side k b) q → (s : Bits) × (q ≡ k ++ b ∷ s)
Extends-of_side k q b (s, e) = (s, e ∙ append_assoc k (b ∷ []) s)

-- The bit after a prefix is one.
pub bit_unique : (y c s t : Bits) (b b' : Bool) → y ≡ c ++ b ∷ s → y ≡ c ++ b' ∷ t → b ≡ b'
bit_unique y c s t b b' e f =
    sym (bit-append c s b) ∙ ap (λ y. pfx_bit y (length c)) (sym e ∙ f) ∙ bit-append c t b'

pub extend_at :
    (y z c s : Bits) (b : Bool) → y ≡ c ++ b ∷ s → Extends y z → (t : Bits) × (z ≡ c ++ b ∷ t)
extend_at y z c s b e (t, f) = (s ++ t, f ∙ ap (λ y. y ++ t) e ∙ append_assoc c (b ∷ s) t)

not_ne : (b : Bool) → b ≢ not b
not_ne true e = cc
not_ne false e = cc

not-not : (b : Bool) → not (not b) ≡ b
not-not true = refl
not-not false = refl

-- A prefix that covers two that part covers where they part.
Extends-apart :
    (x k q c : Bits) (b : Bool) (s t : Bits)
    → k ≡ c ++ b ∷ s
    → q ≡ c ++ not b ∷ t
    → Extends x k
    → Extends x q
    → Extends x c
Extends-apart x k q c b s t e f xk xq = elim (view x c) [
  | same g ↦ subst (Extends x) g (Extends-refl x)
  | below b' s' g ↦ (b' ∷ s', g)
  | above b' s' g ↦
      let (u, ek) = extend_at x k c s' b' g xk in
      let (w, eq) = extend_at x q c s' b' g xq in
      absurd (not_ne b (bit_unique k c s u b b' e ek ∙ bit_unique q c w t b' (not b) eq f))
  | apart c' b' s' t' g h ↦
      let (u, ek) = extend_at x k c' s' b' g xk in
      let (w, ec) = extend_at c k c' t' (not b') h (b ∷ s, e) in
      absurd (not_ne b' (bit_unique k c' u w b' (not b') ek ec))
]

pub none_ne_some {ℓ} : {V : Type ℓ} (v : V) → none ≢ some v
none_ne_some v e = cc

module _ {ℓ} {V : Type ℓ} where
  abbrev pub Under : Bits → Node V → Type 0
  Under x nil = Unit
  Under x (node k v l r) = Extends x k × Under (side k false) l × Under (side k true) r

  pub Under-weaken : (x y : Bits) (t : Node V) → Extends x y → Under y t → Under x t
  Under-weaken x y nil e u = tt
  Under-weaken x y (node k v l r) e u = (Extends-trans x y k e u.0, u.1, u.2)

  -- Whatever is stored lies under the prefix that all nodes lie under.
  pub stored-Extends :
      (x : Bits) (t : Node V) (p : Bits) (v : V) → Under x t → node_exact t p ≡ some v → Extends x p
  unfolding node_exact
  stored-Extends x nil p v u e = absurd (none_ne_some v e)
  stored-Extends x (node k w l r) p v u e = elim (Bool-cases (covers x p)) [
    | inl on ↦ Extends-of_covers x p on
    | inr off ↦ absurd (none_ne_some v (sym (exact_off x k p w l r u.0 off) ∙ e))
  ]

  pub Under-child :
      (x k : Bits) (v : Option V) (l r : Node V)
      → Under x (node k v l r)
      → (b : Bool) → Under (side k b) (child b l r)
  Under-child x k v l r u false = u.1
  Under-child x k v l r u true = u.2

  Under-set_child :
      (x k : Bits) (v : Option V) (l r t : Node V) (b : Bool)
      → Under x (node k v l r)
      → Under (side k b) t
      → Under x (set_child b k v l r t)
  Under-set_child x k v l r t false u h = (u.0, h, u.2)
  Under-set_child x k v l r t true u h = (u.0, u.1, h)

  Under-hang :
      (x q : Bits) (w : Option V) (b : Bool) (n : Node V)
      → Extends x q
      → Under (side q b) n
      → Under x (hang q w b n)
  Under-hang x q w true n e u = (e, tt, u)
  Under-hang x q w false n e u = (e, u, tt)

  Under-fork :
      (x c : Bits) (b : Bool) (m n : Node V)
      → Extends x c
      → Under (side c b) m
      → Under (side c (not b)) n
      → Under x (fork c b m n)
  Under-fork x c true m n e um un = (e, un, um)
  Under-fork x c false m n e um un = (e, um, un)

  Under-intern_at :
      (change : Option V → Option V) (x k : Bits) (v : Option V) (l r : Node V) (q : Bits)
      → Under x (node k v l r)
      → Extends x q
      → ((b : Bool) (y : Bits)
          → Under y (child b l r)
          → Extends y q
          → Under y (node_intern change (child b l r) q))
      → View k q
      → Under x (node_intern change (node k v l r) q)
  Under-intern_at change x k v l r q u xq ih (same e) =
      subst (Under x) (sym (intern_same k v l r change q e)) u
  Under-intern_at change x k v l r q u xq ih (below b s e) =
      subst (Under x) (sym (intern_below k v l r change b q s e)) (
        Under-set_child x k v l r (node_intern change (child b l r) q) b u
          (ih b (side k b) (Under-child x k v l r u b) (side-Extends k q s b e)))
  Under-intern_at change x k v l r q u xq ih (above b s e) =
      subst (Under x) (sym (intern_above k v l r change b q s e))
        (Under-hang x q (change none) b (node k v l r) xq (side-Extends q k s b e, u.1, u.2))
  Under-intern_at change x k v l r q u xq ih (apart c b s t e f) =
      subst (Under x) (sym (intern_apart k v l r change q c b s t e f)) (
        Under-fork x c (not b) (node q (change none) nil nil) (node k v l r)
          (Extends-apart x k q c b s t e f u.0 xq) (side-Extends c q t (not b) f, tt, tt)
          (
            subst (λ b'. Extends (side c b') k) (sym (not-not b)) (side-Extends c k s b e),
            u.1,
            u.2,
          ))

  pub Under-intern :
      (change : Option V → Option V) (x : Bits) (t : Node V) (q : Bits)
      → Under x t
      → Extends x q
      → Under x (node_intern change t q)
  Under-intern change x nil q u xq = unfold node_intern in (xq, tt, tt)
  Under-intern change x (node k v l r) q u xq =
      Under-intern_at change x k v l r q u xq
        (λ b y h e.
          by_child (λ t. (y : Bits) → Under y t → Extends y q → Under y (node_intern change t q)) l
            r (λ y h e. Under-intern change y l q h e) (λ y h e. Under-intern change y r q h e) b y
            h e)
        (view k q)

  pub Under-prune :
      (x k : Bits) (v : Option V) (l r : Node V) → Under x (node k v l r) → Under x (prune k v l r)
  unfolding prune
  Under-prune x k (some v) l r u = u
  Under-prune x k none nil r u =
      Under-weaken x (side k true) r (Extends-trans x k (side k true) u.0 (true ∷ [], refl)) u.2
  Under-prune x k none (node lk lv ll lr) nil u =
      Under-weaken x (side k false) (node lk lv ll lr)
        (Extends-trans x k (side k false) u.0 (false ∷ [], refl)) u.1
  Under-prune x k none (node lk lv ll lr) (node rk rv rl rr) u = u

  Under-prune_up :
      (gone : Bool) (x k : Bits) (v : Option V) (l r : Node V)
      → Under x (node k v l r)
      → Under x (prune_up gone k v l r)
  Under-prune_up true x k v l r u = Under-prune x k v l r u
  Under-prune_up false x k v l r u = u

  Under-clear_child :
      (x k : Bits) (v : Option V) (l r t : Node V) (b : Bool)
      → Under x (node k v l r)
      → Under (side k b) t
      → Under x (clear_child k v l r b t)
  Under-clear_child x k v l r t false u h = Under-prune_up (is_nil t) x k v t r (u.0, h, u.2)
  Under-clear_child x k v l r t true u h = Under-prune_up (is_nil t) x k v l t (u.0, u.1, h)

  pub by_side {κ} :
      (k : Bits) (P : Bits → Node V → Type κ) (l r : Node V)
      → P (side k false) l
      → P (side k true) r
      → (b : Bool) → P (side k b) (child b l r)
  by_side k P l r x y false = x
  by_side k P l r x y true = y

  Under-clear_at :
      (x k : Bits) (v : Option V) (l r : Node V) (q : Bits)
      → Under x (node k v l r)
      → ((b : Bool) → Under (side k b) (clear_value (child b l r) q))
      → View k q
      → Under x (clear_value (node k v l r) q)
  Under-clear_at x k v l r q u ih (same e) =
      subst (Under x) (sym (clear_same k v l r q e)) (Under-prune x k none l r u)
  Under-clear_at x k v l r q u ih (below b s e) =
      subst (Under x) (sym (clear_below k v l r b q s e))
        (Under-clear_child x k v l r (clear_value (child b l r) q) b u (ih b))
  Under-clear_at x k v l r q u ih (above b s e) =
      subst (Under x) (sym (clear_outside k v l r q (covers_above k q b s e))) u
  Under-clear_at x k v l r q u ih (apart c b s t e f) =
      subst (Under x) (sym (clear_outside k v l r q (covers_apart k q c b s t e f))) u

  pub Under-clear : (x : Bits) (t : Node V) (q : Bits) → Under x t → Under x (clear_value t q)
  unfolding clear_value
  Under-clear x nil q u = tt
  Under-clear x (node k v l r) q u =
      Under-clear_at x k v l r q u
        (λ b.
          by_side k (λ y t. Under y (clear_value t q)) l r (Under-clear (side k false) l q u.1)
            (Under-clear (side k true) r q u.2) b)
        (view k q)
