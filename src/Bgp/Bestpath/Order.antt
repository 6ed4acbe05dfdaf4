-- ===== src/Bgp/Bestpath/Order.antt =====
-- Comparisons that decide by one criterion after another, as `path_cmp` of
-- packets/routing/rtengine/plugins/bgp/bestpath.pyx does, and when they order paths.
use packets.Base.{
  ℕ, Bool, true, false, List, [], ◌∷◌, ◌≡◌, refl, sym, ap, ◌∙◌, if◌then◌else◌, eqb, ltb, arith,
}
use packets.Rib.RouteTable.Select.{Sign, before, tie, after}

abbrev pub flip : Sign → Sign
flip before = after
flip tie = tie
flip after = before

-- The first does not lose.
abbrev pub holds : Sign → Bool
holds before = true
holds tie = true
holds after = false

-- The first criterion that decides.
abbrev pub or_else : Sign → Sign → Sign
or_else before s = before
or_else tie s = s
or_else after s = after

-- The smaller number wins.
abbrev pub smaller : ℕ → ℕ → Sign
smaller x y = if eqb x y then tie else if ltb x y then before else after

module _ {A : Type 0} where
  -- A total preorder.
  pub record IsOrder (c : A → A → Sign) : Type 0 where
    pub flips : (x y : A) → c y x ≡ flip (c x y)
    pub trans : (x y z : A) → holds (c x y) ≡ true → holds (c y z) ≡ true → holds (c x z) ≡ true

then_flips : (s t u v : Sign) → t ≡ flip s → v ≡ flip u → or_else t v ≡ flip (or_else s u)
then_flips before t u v e f = rw e
then_flips tie t u v e f = rw e f
then_flips after t u v e f = rw e

pub holds_both : (s t : Sign) → t ≡ flip s → holds s ≡ true → holds t ≡ true → s ≡ tie
holds_both before t e a b = let bad = sym b ∙ ap holds e in absurd (ground arith)
holds_both tie t e a b = refl
holds_both after t e a b = absurd (ground arith)

pub flip_is_self : (s : Sign) → s ≡ flip s → s ≡ tie
flip_is_self before e = absurd (ground arith)
flip_is_self tie e = refl
flip_is_self after e = absurd (ground arith)

first-holds : (s t : Sign) → holds (or_else s t) ≡ true → holds s ≡ true
first-holds before t h = refl
first-holds tie t h = refl
first-holds after t h = h

second-holds : (s t : Sign) → s ≡ tie → holds (or_else s t) ≡ true → holds t ≡ true
second-holds before t e h = absurd (ground arith)
second-holds tie t e h = h
second-holds after t e h = absurd (ground arith)

pub tie-holds : (s : Sign) → s ≡ tie → holds s ≡ true
tie-holds s e = ap holds e

module _ {A : Type 0} where
  module _ (c : A → A → Sign) (o : IsOrder c) where
    -- Two that do not lose to each other tie.
    pub both_tie : (x y : A) → holds (c x y) ≡ true → holds (c y x) ≡ true → c x y ≡ tie
    both_tie x y a b = holds_both (c x y) (c y x) (o.flips x y) a b

    pub tie_flips : (x y : A) → c x y ≡ tie → c y x ≡ tie
    tie_flips x y e = o.flips x y ∙ ap flip e

    -- Where the ends of a descent tie, so does each step.
    ends_tie :
        (x y z : A)
        → c x z ≡ tie
        → holds (c x y) ≡ true
        → holds (c y z) ≡ true
        → (c x y ≡ tie) × (c y z ≡ tie)
    ends_tie x y z e a b =
        let back = tie-holds (c z x) (tie_flips x z e) in
        (both_tie x y a (o.trans y z x b back), both_tie y z b (o.trans z x y back a))

    pub trans_tie : (x y z : A) → c x y ≡ tie → c y z ≡ tie → c x z ≡ tie
    trans_tie x y z a b =
        both_tie x z (o.trans x y z (tie-holds (c x y) a) (tie-holds (c y z) b)) (
          o.trans z y x (tie-holds (c z y) (tie_flips y z b)) (tie-holds (c y x) (tie_flips x y a)))

  module _ (c d : A → A → Sign) (oc : IsOrder c) (od : IsOrder d) where
    then_trans_at :
        (x y z : A) (s : Sign)
        → c x z ≡ s
        → holds (c x y) ≡ true
        → holds (c y z) ≡ true
        → holds (or_else (c x y) (d x y)) ≡ true
        → holds (or_else (c y z) (d y z)) ≡ true
        → holds (or_else s (d x z)) ≡ true
    then_trans_at x y z before e a b h k = refl
    then_trans_at x y z tie e a b h k =
        let (p, q) = ends_tie c oc x y z e a b in
        od.trans x y z (second-holds (c x y) (d x y) p h) (second-holds (c y z) (d y z) q k)
    then_trans_at x y z after e a b h k =
        let bad = sym (oc.trans x y z a b) ∙ ap holds e in absurd (ground arith)

    -- A second criterion after a first.
    pub then-IsOrder : IsOrder (λ x y. or_else (c x y) (d x y))
    then-IsOrder = record {
      flips = λ x y. then_flips (c x y) (c y x) (d x y) (d y x) (oc.flips x y) (od.flips x y);
      trans = λ x y z h k.
          then_trans_at x y z (c x z) refl (first-holds (c x y) (d x y) h)
            (first-holds (c y z) (d y z) k) h k;
    }

  -- All tie.
  pub tie-IsOrder : IsOrder {A = A} (λ x y. tie)
  tie-IsOrder = record { flips = λ x y. refl; trans = λ x y z a b. refl }

  -- The order of another type, through a function.
  pub pull-IsOrder :
      {B : Type 0} (f : A → B) (c : B → B → Sign) → IsOrder c → IsOrder (λ x y. c (f x) (f y))
  pull-IsOrder f c o = record {
    flips = λ x y. o.flips (f x) (f y);
    trans = λ x y z. o.trans (f x) (f y) (f z);
  }

-- The order of numbers, and of lists of them from the front.
pub smaller-IsOrder : IsOrder smaller
smaller-IsOrder = record { flips = λ x y. ground arith; trans = λ x y z a b. ground arith }

pub larger-IsOrder : IsOrder (λ x y. smaller y x)
larger-IsOrder = record { flips = λ x y. ground arith; trans = λ x y z a b. ground arith }

abbrev pub by_bytes : List ℕ → List ℕ → Sign
by_bytes [] [] = tie
by_bytes [] (y ∷ ys) = before
by_bytes (x ∷ xs) [] = after
by_bytes (x ∷ xs) (y ∷ ys) = or_else (smaller x y) (by_bytes xs ys)

bytes_flips : (x y : List ℕ) → by_bytes y x ≡ flip (by_bytes x y)
bytes_flips [] [] = refl
bytes_flips [] (y ∷ ys) = refl
bytes_flips (x ∷ xs) [] = refl
bytes_flips (x ∷ xs) (y ∷ ys) =
    then_flips (smaller x y) (smaller y x) (by_bytes xs ys) (by_bytes ys xs)
      (smaller-IsOrder.flips x y) (bytes_flips xs ys)

bytes_trans :
    (x y z : List ℕ)
    → holds (by_bytes x y) ≡ true
    → holds (by_bytes y z) ≡ true
    → holds (by_bytes x z) ≡ true
bytes_trans [] y [] a b = refl
bytes_trans [] y (z ∷ zs) a b = refl
bytes_trans (x ∷ xs) [] z a b = absurd (ground arith)
bytes_trans (x ∷ xs) (y ∷ ys) [] a b = absurd (ground arith)
bytes_trans (x ∷ xs) (y ∷ ys) (z ∷ zs) a b = ground (arith, bytes_trans xs ys zs)

pub bytes-IsOrder : IsOrder by_bytes
bytes-IsOrder = record { flips = bytes_flips; trans = bytes_trans }
