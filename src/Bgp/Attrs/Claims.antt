-- ===== src/Bgp/Attrs/Claims.antt =====
-- packets/routing/rtengine/plugins/bgp/attrs.pyx: an `AttrTable` and the claims on its sets, where each
-- release is of an instance that an earlier call returned.
use packets.Base.{
  ℕ, ◌+◌, ◌-◌, ◌≤◌, true, false, Option, none, some, List, [], ◌∷◌, ◌≡◌, refl, sym, ap, eqb, leb,
  count_if, Key, ◌==◌, Bool-cases, inl, inr, All, arith,
}
use packets.Base.Dict.{Dict, get, put, remove, get-put, get-remove}
use mathlib.Core.Path.{subst}
use packets.Bgp.Attrs.Table.{Instance, AttrTable, intern, release, found_or_new, release_found}

module _ {A : Type 0} ⦃key : Key A⦄ where
  -- How many claims there are on what equals a set.
  abbrev pub claims_on : A → List (Instance A) → ℕ
  claims_on a claims = count_if (λ i. i.1 == a) claims

  abbrev pub Shares : A → ℕ → Instance A → Type 0
  Shares a g i = (i.1 == a) ≡ true → i.0 ≡ g

  -- The entry of a set: its references are the claims on it, and each is a claim on the one instance.
  abbrev pub Entry : A → List (Instance A) → Option (ℕ × ℕ) → Type 0
  Entry a claims none = claims_on a claims ≡ 0
  Entry a claims (some (g, refs)) =
      (claims_on a claims ≡ refs) × (1 ≤ refs) × All (Shares a g) claims

  abbrev pub Balanced : AttrTable A → List (Instance A) → Type 0
  Balanced t claims = (a : A) → Entry a claims (get a t.sets)

  nobody :
      (a : A) (g : ℕ) (claims : List (Instance A))
      → claims_on a claims ≡ 0
      → All (Shares a g) claims
  nobody a g [] e = tt
  nobody a g (i ∷ claims) e = elim (Bool-cases (i.1 == a)) [
    | inl same ↦ absurd (ground arith)
    | inr other ↦ ((λ same. absurd (ground arith)), nobody a g claims (ground arith))
  ]

  -- A claim on another set.
  Entry-other :
      (a : A) (i : Instance A) (claims : List (Instance A)) (o : Option (ℕ × ℕ))
      → (i.1 == a) ≡ false
      → Entry a claims o
      → Entry a (i ∷ claims) o
  Entry-other a i claims none e h = ground arith
  Entry-other a i claims (some (g, refs)) e (n, pos, all) =
      (ground arith, pos, ((λ same. absurd (ground arith)), all))

  key_self : (a : A) → (a == a) ≡ true
  key_self a = (key.same_iff a a).1 refl

  -- An entry after an assignment for one of the sets.
  Entry-put :
      (d : Dict A (ℕ × ℕ)) (a : A) (v : ℕ × ℕ) (claims : List (Instance A))
      → Entry a claims (some v)
      → ((c : A) → (a == c) ≡ false → Entry c claims (get c d))
      → (c : A) → Entry c claims (get c (put a v d))
  Entry-put d a v claims own others c =
      subst (Entry c claims) (sym (get-put a c v d)) (elim (Bool-cases (a == c)) [
        | inl same ↦ rw same (subst (λ x. Entry x claims (some v)) ((key.same_iff a c).0 same) own)
        | inr other ↦ rw other (others c other)
      ])

  Entry-remove :
      (d : Dict A (ℕ × ℕ)) (a : A) (claims : List (Instance A))
      → claims_on a claims ≡ 0
      → ((c : A) → (a == c) ≡ false → Entry c claims (get c d))
      → (c : A) → Entry c claims (get c (remove a d))
  Entry-remove d a claims own others c =
      subst (Entry c claims) (sym (get-remove a c d)) (elim (Bool-cases (a == c)) [
        | inl same ↦ rw same (subst (λ x. claims_on x claims ≡ 0) ((key.same_iff a c).0 same) own)
        | inr other ↦ rw other (others c other)
      ])

  found-Balanced :
      (t : AttrTable A) (h : ℕ) (a : A) (claims : List (Instance A)) (o : Option (ℕ × ℕ))
      → Balanced t claims
      → Entry a claims o
      → Balanced (found_or_new t (h, a) o).0 ((found_or_new t (h, a) o).1 ∷ claims)
  found-Balanced t h a claims none b e =
      let self = key_self a in
      Entry-put t.sets a (h, 1) ((h, a) ∷ claims)
        (ground arith, omega arith, ((λ same. refl), nobody a h claims e))
        (λ c other. Entry-other c (h, a) claims (get c t.sets) other (b c))
  found-Balanced t h a claims (some (g, refs)) b (n, pos, all) =
      let self = key_self a in
      Entry-put t.sets a (g, refs + 1) ((g, a) ∷ claims)
        (ground arith, omega arith, ((λ same. refl), all))
        (λ c other. Entry-other c (g, a) claims (get c t.sets) other (b c))

  pub intern-Balanced :
      (t : AttrTable A) (i : Instance A) (claims : List (Instance A))
      → Balanced t claims
      → Balanced (intern t i).0 ((intern t i).1 ∷ claims)
  intern-Balanced t (h, a) claims b = found-Balanced t h a claims (get a t.sets) b (b a)

  -- The entry without one claim on another set.
  Entry-less :
      (a : A) (i : Instance A) (claims : List (Instance A)) (o : Option (ℕ × ℕ))
      → (i.1 == a) ≡ false
      → Entry a (i ∷ claims) o
      → Entry a claims o
  Entry-less a i claims none e h = ground arith
  Entry-less a i claims (some (g, refs)) e (n, pos, all) = (ground arith, pos, all.1)

  -- The references that are left, or a refusal.
  abbrev pub Released : AttrTable A × Option ℕ → A → List (Instance A) → Type 0
  Released r a claims = Balanced r.0 claims × (r.1 ≡ some (claims_on a claims))

  release_found-Balanced :
      (t : AttrTable A) (h : ℕ) (a : A) (claims : List (Instance A)) (o : Option (ℕ × ℕ))
      → Balanced t ((h, a) ∷ claims)
      → Entry a ((h, a) ∷ claims) o
      → Released (release_found t (h, a) o) a claims
  release_found-Balanced t h a claims none b e = let self = key_self a in absurd (ground arith)
  release_found-Balanced t h a claims (some (g, refs)) b (n, pos, all) =
      let self = key_self a in
      let same : eqb g h ≡ true = let e = all.0 self in ground arith in
      rw same (elim (Bool-cases (leb refs 1)) [
        | inl last ↦ rw last (
          Entry-remove t.sets a claims (ground arith)
              (λ c other. Entry-less c (h, a) claims (get c t.sets) other (b c)),
          ap some (ground arith),
        )
        | inr more ↦ rw more (
          Entry-put t.sets a (g, refs - 1) claims (ground arith, ground arith, all.1)
              (λ c other. Entry-less c (h, a) claims (get c t.sets) other (b c)),
          ap some (ground arith),
        )
      ])

  pub release-Balanced :
      (t : AttrTable A) (i : Instance A) (claims : List (Instance A))
      → Balanced t (i ∷ claims)
      → Released (release t i) i.1 claims
  release-Balanced t (h, a) claims b = release_found-Balanced t h a claims (get a t.sets) b (b a)
