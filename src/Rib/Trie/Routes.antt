-- ===== src/Rib/Trie/Routes.antt =====
-- packets/routing/rtengine/rib/table.pyx: the lookups of a `RouteTable`, which pass a packed address
-- to its trie, keep what Rib/Lookup.antt asks of a table.
use packets.Base.{
  ◌*◌, false, eqb, if◌then◌else◌, Bool-cases, inl, inr, ◌⊎◌, ◌≢◌, ℕ, zero, suc, ◌≤◌, ◌≡◌, refl, sym,
  ap, ◌∙◌, Bool, true, Option, none, some, [], ◌∷◌, ◌++◌, length, arith,
}
use mathlib.Core.Path.{subst}
use packets.Rib.Route.{Bytes, Route, Dest}
use packets.Rib.Lookup.{Table, Longest, Best, best_passes, lpm, lpm-Best, answer_in}
use packets.Rib.Trie.Bits.{Bits, bits_of, take, take-append}
use packets.Rib.Trie.Node.{node_exact, node_lpm}
use packets.Rib.Trie.Interned.{Extends, Extends-trans}
use packets.Rib.Trie.Order.{length-Extends}
use packets.Rib.Trie.Longest.{Found, kept, longest, Cover, node_lpm-Found}
use packets.Rib.Trie.Ops.{Trie, Result, ok, raises, wrong_width, addr_bits, value_of, lpm_addr}
use packets.Rib.Trie.Valid.{IsValid}

abbrev drop : ℕ → Bits → Bits
drop zero bits = bits
drop (suc n) [] = []
drop (suc n) (b ∷ bits) = drop n bits

take-drop : (n : ℕ) (x : Bits) → x ≡ take n x ++ drop n x
take-drop zero x = refl
take-drop (suc n) [] = refl
take-drop (suc n) (b ∷ x) = ap (λ t. b ∷ t) (take-drop n x)

length-take-le : (n : ℕ) (x : Bits) → length (take n x) ≤ n
length-take-le zero x = omega arith
length-take-le (suc n) [] = omega arith
length-take-le (suc n) (b ∷ x) = omega (arith, length-take-le n x)

-- What covers the first bits of an address covers the address, and is no longer than they are.
Extends-of_take : (n : ℕ) (x p : Bits) → Extends p (take n x) → Extends p x × (length p ≤ n)
Extends-of_take n x p e = (
  Extends-trans p (take n x) x e (drop n x, take-drop n x),
  omega (arith, length-Extends p (take n x) e, length-take-le n x),
)

take-Extends_at : (n : ℕ) (p s : Bits) → length p ≤ n → Extends p (take n (p ++ s))
take-Extends_at n [] s le = (take n s, refl)
take-Extends_at zero (b ∷ p) s le = absurd (omega arith)
take-Extends_at (suc n) (b ∷ p) s le =
    let (t, e) = take-Extends_at n p s (omega arith) in (t, ap (λ x. b ∷ x) e)

take-Extends : (n : ℕ) (x p : Bits) → Extends p x → length p ≤ n → Extends p (take n x)
take-Extends n x p (s, e) le = subst (λ x. Extends p (take n x)) (sym e) (take-Extends_at n p s le)

prefix_unique : (x p q : Bits) → Extends p x → Extends q x → length p ≡ length q → p ≡ q
prefix_unique x p q (s, e) (t, f) n =
    sym (take-append p s)
    ∙ ap (take (length p)) (sym e)
    ∙ ap (λ m. take m x) n
    ∙ ap (take (length q)) f
    ∙ take-append q t

some_inj : {V : Type 0} (a b : V) → some a ≡ some b → a ≡ b
some_inj a b e = cc

pub checked_inj :
    {A : Type 0} (b : Bool) (x y : A) → (if b then ok x else raises wrong_width) ≡ ok y → x ≡ y
checked_inj true x y e = cc
checked_inj false x y e = cc

length-bits_of : (a : Bytes) → length (bits_of a) ≡ length a * 8
length-bits_of [] = refl
length-bits_of (b ∷ a) = omega (arith, length-bits_of a)

-- A trie that holds destinations under their own prefixes.
module _ (t : Trie Dest) (valid : IsValid t)
    (keyed : (p : Bits) (d : Dest) → node_exact t.root p ≡ some d → d.prefix.plen ≡ length p) where
  -- An entry whose prefix covers the address.
  abbrev pub CoversIn : Bytes → Dest → Type 0
  CoversIn a d = (p : Bits) × (node_exact t.root p ≡ some d) × Extends p (bits_of a)

  module _ (q : Bits) (P : Dest → Type 0) (into : (p : Bits) (d : Dest) → Cover t.root q p d → P d)
      (out : (d : Dest) → P d → (p : Bits) × Cover t.root q p d) where
    Found-Longest : (r : Option (Bits × Dest)) → Found none t.root q r → Longest P (value_of r)
    Found-Longest r (kept nothing f) =
        subst (λ r. Longest P (value_of r)) (sym f) (λ d h. let (p, c) = out d h in nothing p d c)
    Found-Longest r (longest p d c most f) =
        subst (λ r. Longest P (value_of r)) (sym f)
          (
            into p d c,
            λ d' h.
                let (p', c') = out d' h in
                omega (arith, keyed p d c.0, keyed p' d' c'.0, most p' d' c'),
          )

  pub addr-Longest :
      (a : Bytes) → Longest (CoversIn a) (value_of (node_lpm none t.root (bits_of a)))
  addr-Longest a =
      Found-Longest (bits_of a) (CoversIn a) (λ p d c. (p, c.0, c.1)) (λ d h. (h.0, (h.1, h.2))) _
        (node_lpm-Found none t.root (bits_of a) [] valid.under)

  pub limit-Longest :
      (n : ℕ) (a : Bytes)
      → Longest
          (λ d. CoversIn a d × (d.prefix.plen ≤ n))
          (value_of (node_lpm none t.root (take n (bits_of a))))
  limit-Longest n a =
      Found-Longest (take n (bits_of a)) (λ d. CoversIn a d × (d.prefix.plen ≤ n))
        (λ p d c.
          let (e, le) = Extends-of_take n (bits_of a) p c.1 in
          ((p, c.0, e), omega (arith, keyed p d c.0)))
        (λ d h.
          let le = keyed h.0.0 d h.0.1 in
          (h.0.0, (h.0.1, take-Extends n (bits_of a) h.0.0 h.0.2 (omega (arith, le, h.1)))))
        _ (node_lpm-Found none t.root (take n (bits_of a)) [] valid.under)

  pub CoversIn-unique :
      (a : Bytes) (d d' : Dest)
      → CoversIn a d
      → CoversIn a d'
      → d.prefix.plen ≡ d'.prefix.plen
      → d ≡ d'
  CoversIn-unique a d d' (p, e, x) (p', e', x') n =
      let same = prefix_unique (bits_of a) p p' x x' (omega (arith, keyed p d e, keyed p' d' e')) in
      some_inj d d' (sym e ∙ ap (node_exact t.root) same ∙ e')

  pub checked-Longest :
      (a : Bytes) (o : Option Dest) → lpm_addr t (bits_of a) ≡ ok o → Longest (CoversIn a) o
  unfolding lpm_addr
  checked-Longest a o e =
      subst (Longest (CoversIn a)) (checked_inj (eqb (length (bits_of a)) (addr_bits t.afi)) _ o e)
        (addr-Longest a)

  -- `RouteTable.lpm` and `RouteTable.lpm_addr`, with their laws
  abbrev pub trie_table : Table
  trie_table = record {
    Covers = CoversIn;
    lpm_addr = λ a. lpm_addr t (bits_of a);
    lpm = λ n a. value_of (node_lpm none t.root (take n (bits_of a)));
    lpm_addr-Longest = checked-Longest;
    lpm-Longest = limit-Longest;
    Covers-unique = CoversIn-unique;
  }

  -- What a lookup with a test returns, or raises.
  abbrev pub LpmIs : Bytes → (Route → Bool) → Result (Option Route) → Type 0
  LpmIs addr accept r =
      ((length addr * 8 ≡ addr_bits t.afi)
        × (route : Option Route) × (r ≡ ok route)
        × Best (λ d. CoversIn addr d × (best_passes accept d.best ≡ true)) route)
      ⊎ ((length addr * 8 ≢ addr_bits t.afi) × (r ≡ raises wrong_width))

  fitting :
      (a : Bytes)
      → ((length a * 8 ≡ addr_bits t.afi)
          × (lpm_addr t (bits_of a) ≡ ok (value_of (node_lpm none t.root (bits_of a)))))
        ⊎ ((length a * 8 ≢ addr_bits t.afi) × (lpm_addr t (bits_of a) ≡ raises wrong_width))
  unfolding lpm_addr
  fitting a = elim (Bool-cases (eqb (length (bits_of a)) (addr_bits t.afi))) [
    | inl fits ↦ inl (ground (arith, length-bits_of a), rw fits refl)
    | inr off ↦ inr (ground (arith, length-bits_of a), rw off refl)
  ]

  -- In a valid trie that holds destinations under their own prefixes, a lookup with a test for an
  -- address of the family's width returns the winner of the longest stored prefix that covers the
  -- address and whose winner passes, and nothing only if there is none; for any other address it
  -- raises.
  pub lpm-trie :
      (addr : Bytes) (accept : Route → Bool)
      → LpmIs addr accept (lpm (some trie_table) addr (some accept))
  unfolding lpm
  lpm-trie addr accept = elim (fitting addr) [
    | inl f ↦
        let (route, e, best) = lpm-Best trie_table addr accept _ f.1 in inl (f.0, route, e, best)
    | inr f ↦ inr (f.0, ap (answer_in trie_table addr (some accept)) f.1)
  ]
