-- ===== src/Rib/Trie/Positions.antt =====
-- packets/routing/rtengine/rib/trie.pyx: how a node and a prefix can lie to one another, and what
-- `node_exact` and `node_intern` do in each case.
use packets.Base.{
  ℕ, ◌≡◌, refl, append-nil, sym, ap, ◌∙◌, Bool, true, false, not, Option, none, [], ◌∷◌, ◌++◌,
  length, length-append, eqb, arith,
}
use mathlib.Core.Path.{subst}
use packets.Rib.Trie.Bits.{
  Bits, covers, covers-append, covers-above, covers-apart, bit-append, take-append, common-above,
  common-apart,
}
use packets.Rib.Trie.Node.{Node, nil, node, node_exact, hang, fork, split, node_intern}

-- The prefix `q` is that of the node, lies below it, or above it, or parts from it at a bit.
pub data View (k q : Bits) : Type 0 where
  same : k ≡ q → View k q
  below : (b : Bool) (s : Bits) → q ≡ k ++ b ∷ s → View k q
  above : (b : Bool) (s : Bits) → k ≡ q ++ b ∷ s → View k q
  apart : (c : Bits) (b : Bool) (s t : Bits) → k ≡ c ++ b ∷ s → q ≡ c ++ not b ∷ t → View k q

View-cons : (x : Bool) (k q : Bits) → View k q → View (x ∷ k) (x ∷ q)
View-cons x k q (same e) = same (ap (λ t. x ∷ t) e)
View-cons x k q (below b s e) = below b s (ap (λ t. x ∷ t) e)
View-cons x k q (above b s e) = above b s (ap (λ t. x ∷ t) e)
View-cons x k q (apart c b s t e f) = apart (x ∷ c) b s t (ap (λ t. x ∷ t) e) (ap (λ t. x ∷ t) f)

pub view : (k q : Bits) → View k q
view [] [] = same refl
view [] (b ∷ q) = below b q refl
view (b ∷ k) [] = above b k refl
view (true ∷ k) (true ∷ q) = View-cons true k q (view k q)
view (false ∷ k) (false ∷ q) = View-cons false k q (view k q)
view (true ∷ k) (false ∷ q) = apart [] true k q refl refl
view (false ∷ k) (true ∷ q) = apart [] false k q refl refl

-- The tests of a descent in each case.
pub covers_self : (k : Bits) → covers k k ≡ true
covers_self k = subst (λ q. covers k q ≡ true) (append-nil k) (covers-append k [])

pub eqb_self : (n : ℕ) → eqb n n ≡ true
eqb_self n = ground arith

pub eqb_below : (k s : Bits) (b : Bool) → eqb (length k) (length (k ++ b ∷ s)) ≡ false
eqb_below k s b = ground (arith, length-append k (b ∷ s))

abbrev pub child {ℓ} : {V : Type ℓ} → Bool → Node V → Node V → Node V
child false l r = l
child true l r = r

abbrev pub set_child {ℓ} : {V : Type ℓ} → Bool → Bits → Option V → Node V → Node V → Node V → Node V
set_child false k v l r t = node k v t r
set_child true k v l r t = node k v l t

pub covers_above : (k q : Bits) (b : Bool) (s : Bits) → k ≡ q ++ b ∷ s → covers k q ≡ false
covers_above k q b s e = subst (λ k. covers k q ≡ false) (sym e) (covers-above q s b)

pub covers_apart :
    (k q c : Bits) (b : Bool) (s t : Bits)
    → k ≡ c ++ b ∷ s
    → q ≡ c ++ not b ∷ t
    → covers k q ≡ false
covers_apart k q c b s t e f =
    subst (λ k. covers k q ≡ false) (sym e)
      (subst (λ q. covers (c ++ b ∷ s) q ≡ false) (sym f) (covers-apart c s t b))

module _ {ℓ} {V : Type ℓ} (n : Node V) (w : Option V) where
  split_above_at : (q : Bits) (b : Bool) (s : Bits) → split (q ++ b ∷ s) n q w ≡ hang q w b n
  unfolding split
  split_above_at q b s =
      ground (arith, common-above q (b ∷ s), length-append q (b ∷ s), bit-append q s b)

  split_apart_at :
      (c : Bits) (b : Bool) (s t : Bits)
      → split (c ++ b ∷ s) n (c ++ not b ∷ t) w ≡ fork c (not b) (node (c ++ not b ∷ t) w nil nil) n
  unfolding split
  split_apart_at c b s t = ground (
    arith,
    common-apart c s t b,
    length-append c (b ∷ s),
    length-append c (not b ∷ t),
    take-append c (b ∷ s),
    bit-append c t (not b),
  )

  split_above : (k q : Bits) (b : Bool) (s : Bits) → k ≡ q ++ b ∷ s → split k n q w ≡ hang q w b n
  split_above k q b s e = subst (λ k. split k n q w ≡ hang q w b n) (sym e) (split_above_at q b s)

  split_apart :
      (k q c : Bits) (b : Bool) (s t : Bits)
      → k ≡ c ++ b ∷ s
      → q ≡ c ++ not b ∷ t
      → split k n q w ≡ fork c (not b) (node q w nil nil) n
  split_apart k q c b s t e f =
      subst (λ k. split k n q w ≡ fork c (not b) (node q w nil nil) n) (sym e)
        (subst (λ q. split (c ++ b ∷ s) n q w ≡ fork c (not b) (node q w nil nil) n) (sym f)
          (split_apart_at c b s t))

module _ {ℓ} {V : Type ℓ} (k : Bits) (v : Option V) (l r : Node V) where
  pub exact_same : (q : Bits) → k ≡ q → node_exact (node k v l r) q ≡ v
  unfolding node_exact
  exact_same q e = subst (λ q. node_exact (node k v l r) q ≡ v) e (ground (arith, covers_self k))

  exact_below_at :
      (b : Bool) (s : Bits)
      → node_exact (node k v l r) (k ++ b ∷ s) ≡ node_exact (child b l r) (k ++ b ∷ s)
  unfolding node_exact
  exact_below_at true s =
      ground (arith, covers-append k (true ∷ s), eqb_below k s true, bit-append k s true)
  exact_below_at false s =
      ground (arith, covers-append k (false ∷ s), eqb_below k s false, bit-append k s false)

  pub exact_outside : (q : Bits) → covers k q ≡ false → node_exact (node k v l r) q ≡ none
  unfolding node_exact
  exact_outside q e = ground arith

  pub intern_same :
      (change : Option V → Option V) (q : Bits)
      → k ≡ q
      → node_intern change (node k v l r) q ≡ node k (change v) l r
  unfolding node_intern
  intern_same change q e =
      subst (λ q. node_intern change (node k v l r) q ≡ node k (change v) l r) e
        (ground (arith, covers_self k))

  intern_below_at :
      (change : Option V → Option V) (b : Bool) (s : Bits)
      → node_intern change (node k v l r) (k ++ b ∷ s)
        ≡ set_child b k v l r (node_intern change (child b l r) (k ++ b ∷ s))
  unfolding node_intern
  intern_below_at change true s =
      ground (arith, covers-append k (true ∷ s), eqb_below k s true, bit-append k s true)
  intern_below_at change false s =
      ground (arith, covers-append k (false ∷ s), eqb_below k s false, bit-append k s false)

  intern_outside :
      (change : Option V → Option V) (q : Bits)
      → covers k q ≡ false
      → node_intern change (node k v l r) q ≡ split k (node k v l r) q (change none)
  unfolding node_intern
  intern_outside change q e = ground arith

  -- What `node_exact`, `node_intern`, `node_lpm` and `clear_value` do below the node.
  pub exact_below :
      (b : Bool) (q s : Bits)
      → q ≡ k ++ b ∷ s
      → node_exact (node k v l r) q ≡ node_exact (child b l r) q
  exact_below b q s e =
      subst (λ q. node_exact (node k v l r) q ≡ node_exact (child b l r) q) (sym e)
        (exact_below_at b s)

  pub intern_below :
      (change : Option V → Option V) (b : Bool) (q s : Bits)
      → q ≡ k ++ b ∷ s
      → node_intern change (node k v l r) q
        ≡ set_child b k v l r (node_intern change (child b l r) q)
  intern_below change b q s e =
      subst
        (λ q.
          node_intern change (node k v l r) q
          ≡ set_child b k v l r (node_intern change (child b l r) q))
        (sym e) (intern_below_at change b s)

  pub intern_above :
      (change : Option V → Option V) (b : Bool) (q s : Bits)
      → k ≡ q ++ b ∷ s
      → node_intern change (node k v l r) q ≡ hang q (change none) b (node k v l r)
  intern_above change b q s e =
      intern_outside change q (covers_above k q b s e)
      ∙ split_above (node k v l r) (change none) k q b s e

  pub intern_apart :
      (change : Option V → Option V) (q c : Bits) (b : Bool) (s t : Bits)
      → k ≡ c ++ b ∷ s
      → q ≡ c ++ not b ∷ t
      → node_intern change (node k v l r) q
        ≡ fork c (not b) (node q (change none) nil nil) (node k v l r)
  intern_apart change q c b s t e f =
      intern_outside change q (covers_apart k q c b s t e f)
      ∙ split_apart (node k v l r) (change none) k q c b s t e f
