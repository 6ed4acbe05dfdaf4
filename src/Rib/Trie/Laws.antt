-- ===== src/Rib/Trie/Laws.antt =====
-- packets/routing/rtengine/rib/trie.pyx: a trie is a map from prefixes, with longest-prefix lookup.
use packets.Base.{
  ℕ, ◌+◌, ◌*◌, ◌≤◌, ◌≡◌, refl, sym, ap, ◌∙◌, Bool, true, false, not, ◌&&◌, Option, none, some, List,
  [], ◌∷◌, eqb, if◌then◌else◌, ◌==◌, bool_key, list_key, nat_key, Bool-cases, inl, inr, arith,
}
use mathlib.Core.Path.{subst}
use packets.Rib.Trie.Bits.{Bits}
use packets.Rib.Trie.Node.{nil, node_exact, is_nil}
use packets.Rib.Trie.Compact.{size, size_bound}
use packets.Rib.Trie.Ops.{
  Trie, Result, ok, raises, insert, get, remove, lpm_entry, store, store_value, take_out, is_none,
}
use packets.Rib.Trie.Ops
use packets.Rib.Trie.Valid.{
  IsValid, Op, apply, delete, exact-store, exact-take_out_at, kept_on_error, put, replay, replay_op,
  run, same_key, store-IsValid, take_out-IsValid, update, wipe,
}

module _ {V : Type 0} where
  get-changed :
      (t s : Trie V) (q p : Ops.Key) (w : Option V)
      → s.afi ≡ t.afi
      → eqb q.afi t.afi ≡ true
      → node_exact s.root p.bits ≡ (if p.bits == q.bits then w else node_exact t.root p.bits)
      → get s p ≡ update t.afi q w (get t) p
  unfolding get
  get-changed t s q p w a e h =
      rw (e, a, h)
        (elim (Bool-cases (p.bits == q.bits)) [
          | inl f ↦ rw f (ground arith)
          | inr f ↦ rw f (ground arith)
        ])

  pub take_out-afi : (t : Trie V) (q : Bits) (o : Option V) → (take_out t q o).0.afi ≡ t.afi
  take_out-afi t q none = refl
  take_out-afi t q (some v) = refl

  -- A trie with its map.
  abbrev Reads : Trie V → ℕ → (Ops.Key → Option V) → Type 0
  Reads s afi f = IsValid s × (s.afi ≡ afi) × ((p : Ops.Key) → get s p ≡ f p)

  abbrev Follows : Op V → Trie V → Trie V → Type 0
  Follows op t s = Reads s t.afi (replay_op t.afi op (get t))

  put_lem :
      (t : Trie V) (q : Ops.Key) (v : V) (b : Bool)
      → eqb q.afi t.afi ≡ b
      → IsValid t
      → Follows (put q (some v)) t (
          kept_on_error t
            (if not b then raises Ops.wrong_family else store_value t q.bits (some v)))
  put_lem t q v true e h = (
    store-IsValid t q.bits v h,
    refl,
    λ p. get-changed t (store t q.bits v).0 q p (some v) refl e (exact-store t q.bits p.bits v),
  )
  put_lem t q v false e h = (h, refl, λ p. rw e)

  delete_lem :
      (t : Trie V) (q : Ops.Key) (b : Bool)
      → eqb q.afi t.afi ≡ b
      → IsValid t
      → Follows
          (delete q)
          t
          (if b then take_out t q.bits (node_exact t.root q.bits) else (t, none)).0
  delete_lem t q true e h =
      let a = take_out-afi t q.bits (node_exact t.root q.bits) in
      (
        take_out-IsValid t q.bits (node_exact t.root q.bits) refl h,
        a,
        λ p.
            get-changed t (take_out t q.bits (node_exact t.root q.bits)).0 q p none a e
              (exact-take_out_at t q.bits p.bits (node_exact t.root q.bits) refl h.under),
      )
  delete_lem t q false e h = (h, refl, λ p. rw e)

  refused_lem :
      (t : Trie V) (q : Ops.Key) (b : Bool)
      → IsValid t
      → Follows
          (put q none)
          t
          (kept_on_error t (if not b then raises Ops.wrong_family else store_value t q.bits none))
  refused_lem t q true h = (h, refl, λ p. refl)
  refused_lem t q false h = (h, refl, λ p. refl)

  get-nil : (t : Trie V) (p : Ops.Key) → t.root ≡ nil → get t p ≡ none
  unfolding get node_exact
  get-nil t p e = elim (Bool-cases (eqb p.afi t.afi)) [
    | inl same ↦ rw (same, e)
    | inr other ↦ rw other
  ]

  apply_lem : (op : Op V) (t : Trie V) → IsValid t → Follows op t (apply op t)
  unfolding insert remove Ops.clear
  apply_lem (put q none) t h = refused_lem t q (eqb q.afi t.afi) h
  apply_lem (put q (some v)) t h = put_lem t q v (eqb q.afi t.afi) refl h
  apply_lem (delete q) t h = delete_lem t q (eqb q.afi t.afi) refl h
  apply_lem wipe t h =
      (record { under = tt; compact = tt; counted = refl }, refl, λ p. get-nil (Ops.clear t) p refl)

  -- Maps that agree are changed to maps that agree.
  replay_op-agrees :
      (afi : ℕ) (op : Op V) (f g : Ops.Key → Option V)
      → ((p : Ops.Key) → f p ≡ g p)
      → (p : Ops.Key) → replay_op afi op f p ≡ replay_op afi op g p
  replay_op-agrees afi (put q none) f g h p = h p
  replay_op-agrees afi (put q (some v)) f g h p =
      ap (λ w. if eqb q.afi afi && same_key p q then some v else w) (h p)
  replay_op-agrees afi (delete q) f g h p =
      ap (λ w. if eqb q.afi afi && same_key p q then none else w) (h p)
  replay_op-agrees afi wipe f g h p = refl

  replay-agrees :
      (afi : ℕ) (ops : List (Op V)) (f g : Ops.Key → Option V)
      → ((p : Ops.Key) → f p ≡ g p)
      → (p : Ops.Key) → replay afi ops f p ≡ replay afi ops g p
  replay-agrees afi [] f g h p = h p
  replay-agrees afi (op ∷ ops) f g h p =
      replay-agrees afi ops (replay_op afi op f) (replay_op afi op g)
        (replay_op-agrees afi op f g h) p

  run_at :
      (ops : List (Op V)) (t : Trie V) (afi : ℕ) (f : Ops.Key → Option V)
      → Reads t afi f
      → Reads (run ops t) afi (replay afi ops f)
  run_at [] t afi f r = r
  run_at (op ∷ ops) t afi f (valid, same_afi, reads) =
      let (v, a, h) = apply_lem op t valid in
      run_at ops (apply op t) afi (replay_op afi op f) (
        v,
        a ∙ same_afi,
        λ p.
            h p
            ∙ subst (λ n. replay_op n op (get t) p ≡ replay_op afi op f p) (sym same_afi)
                (replay_op-agrees afi op (get t) f reads p),
      )

  -- After any insertions, removals and clearings a valid trie is valid and reads as the map that the same operations
  -- make; an insertion of no value or of another family changes nothing.
  pub run-refines :
      (ops : List (Op V)) (t : Trie V)
      → IsValid t
      → IsValid (run ops t) × ((p : Ops.Key) → get (run ops t) p ≡ replay t.afi ops (get t) p)
  run-refines ops t h = let r = run_at ops t t.afi (get t) (h, refl, λ p. refl) in (r.0, r.2)

  -- After any insertions, removals and clearings of a valid trie, its nodes are at most twice its
  -- counter of prefixes, and fewer unless there are none.
  pub size-run :
      (ops : List (Op V)) (t : Trie V)
      → IsValid t
      → size (run ops t).root + (if is_nil (run ops t).root then 0 else 1) ≤ 2 * (run ops t).count
  size-run ops t h =
      let v = (run-refines ops t h).0 in
      omega (arith, v.counted, size_bound (run ops t).root v.compact)
