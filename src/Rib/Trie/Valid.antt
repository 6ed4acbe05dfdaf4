-- ===== src/Rib/Trie/Valid.antt =====
-- packets/routing/rtengine/rib/trie.pyx: the invariant of a trie, and the calls that change it as
-- changes of a map.
use packets.Base.{
  ℕ, ◌≡◌, ◌≢◌, refl, sym, ap, Bool, false, ◌&&◌, Option, none, some, List, [], ◌∷◌, eqb,
  if◌then◌else◌, ◌==◌, bool_key, list_key, nat_key, Bool-cases, Option-cases, inl, inr, arith,
}
use mathlib.Core.Path.{subst}
use packets.Rib.Trie.Bits.{Bits}
use packets.Rib.Trie.Node.{node_exact, node_intern, clear_value}
use packets.Rib.Trie.Interned.{intern_self}
use packets.Rib.Trie.Insert.{intern_ne}
use packets.Rib.Trie.Order.{Under, Under-intern, Under-clear}
use packets.Rib.Trie.Remove.{clear_self, clear_ne}
use packets.Rib.Trie.Compact.{found, stored, IsCompact, IsCompact-intern, stored-intern}
use packets.Rib.Trie.Shape.{IsCompact-clear, stored-clear}
use packets.Rib.Trie.Ops.{
  Trie, Result, ok, raises, insert, get, remove, lpm_entry, store, store_value, take_out, is_none,
}
use packets.Rib.Trie.Ops

pub data Op (V : Type 0) : Type 0 where
  put : Ops.Key → Option V → Op V
  delete : Ops.Key → Op V
  wipe : Op V

abbrev pub same_key : Ops.Key → Ops.Key → Bool
same_key p q = eqb p.afi q.afi && p.bits == q.bits

ne_of_test : (p q : Bits) → (p == q) ≡ false → p ≢ q
ne_of_test p q e f = let t = (list_key.same_iff p q).1 f in cc

module _ {V : Type 0} where
  pub record IsValid (t : Trie V) : Type 0 where
    pub under : Under [] t.root
    pub compact : IsCompact t.root
    pub counted : t.count ≡ stored t.root

  abbrev pub kept_on_error : Trie V → Result (Trie V × Option V) → Trie V
  kept_on_error t (raises e) = t
  kept_on_error t (ok r) = r.0

  abbrev pub apply : Op V → Trie V → Trie V
  apply (put p v) t = kept_on_error t (insert t p v)
  apply (delete p) t = (remove t p).0
  apply wipe t = Ops.clear t

  abbrev pub run : List (Op V) → Trie V → Trie V
  run [] t = t
  run (op ∷ ops) t = run ops (apply op t)

  -- A map, changed at one prefix of the family.
  abbrev pub update : ℕ → Ops.Key → Option V → (Ops.Key → Option V) → Ops.Key → Option V
  update afi q w f p = if eqb q.afi afi && same_key p q then w else f p

  abbrev pub replay_op : ℕ → Op V → (Ops.Key → Option V) → Ops.Key → Option V
  replay_op afi (put q none) f = f
  replay_op afi (put q (some v)) f = update afi q (some v) f
  replay_op afi (delete q) f = update afi q none f
  replay_op afi wipe f = λ p. none

  abbrev pub replay : ℕ → List (Op V) → (Ops.Key → Option V) → Ops.Key → Option V
  replay afi [] f = f
  replay afi (op ∷ ops) f = replay afi ops (replay_op afi op f)

  pub store-IsValid : (t : Trie V) (q : Bits) (v : V) → IsValid t → IsValid (store t q v).0
  store-IsValid t q v h = record {
    under = Under-intern (λ _. some v) [] t.root q h.under (q, refl);
    compact = IsCompact-intern v t.root q h.compact;
    counted = elim (Option-cases (node_exact t.root q)) [
      | inl e ↦ let s = stored-intern v t.root q in rw e (omega (arith, h.counted, ap found e, s))
      | inr (x, e) ↦
          let s = stored-intern v t.root q in rw e (omega (arith, h.counted, ap found e, s))
    ];
  }

  pub take_out-IsValid :
      (t : Trie V) (q : Bits) (o : Option V)
      → node_exact t.root q ≡ o
      → IsValid t
      → IsValid (take_out t q o).0
  take_out-IsValid t q none e h = h
  take_out-IsValid t q (some v) e h = record {
    under = Under-clear [] t.root q h.under;
    compact = IsCompact-clear t.root q h.compact;
    counted = let s = stored-clear t.root q in omega (arith, h.counted, ap found e, s);
  }

  pub exact-store :
      (t : Trie V) (q p : Bits) (v : V)
      → node_exact (store t q v).0.root p ≡ (if p == q then some v else node_exact t.root p)
  exact-store t q p v = elim (Bool-cases (p == q)) [
    | inl e ↦ rw e (
        subst (λ p. node_exact (node_intern (λ _. some v) t.root q) p ≡ some v)
          (sym ((list_key.same_iff p q).0 e)) (intern_self (λ _. some v) t.root q))
    | inr e ↦ rw e (intern_ne (λ _. some v) t.root q p (ne_of_test p q e))
  ]

  pub exact-take_out_at :
      (t : Trie V) (q p : Bits) (o : Option V)
      → node_exact t.root q ≡ o
      → Under [] t.root
      → node_exact (take_out t q o).0.root p ≡ (if p == q then none else node_exact t.root p)
  exact-take_out_at t q p none e u = elim (Bool-cases (p == q)) [
    | inl f ↦ rw f (subst (λ p. node_exact t.root p ≡ none) (sym ((list_key.same_iff p q).0 f)) e)
    | inr f ↦ rw f
  ]
  exact-take_out_at t q p (some v) e u = elim (Bool-cases (p == q)) [
    | inl f ↦ rw f (
        subst (λ p. node_exact (clear_value t.root q) p ≡ none) (sym ((list_key.same_iff p q).0 f))
          (clear_self [] t.root q u))
    | inr f ↦ rw f (clear_ne [] t.root q p u (ne_of_test p q f))
  ]
