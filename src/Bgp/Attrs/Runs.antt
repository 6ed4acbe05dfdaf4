-- ===== src/Bgp/Attrs/Runs.antt =====
-- packets/routing/rtengine/plugins/bgp/attrs.pyx: an `AttrTable` through any calls by users that pair
-- them as its documentation asks.
use packets.Base.{
  ℕ, zero, suc, ◌+◌, Option, none, some, List, [], ◌∷◌, ◌≡◌, refl, sym, ap, ◌∙◌, eqb, leb, length,
  Key, Bool-cases, inl, inr, All, arith,
}
use packets.Base.Dict.{get, get-nil}
use mathlib.Core.Path.{subst}
use packets.Bgp.Attrs.Table.{Instance, AttrTable, new, intern, release, found_or_new, release_found}
use packets.Bgp.Attrs.Claims.{claims_on, Shares, Entry, Balanced, intern-Balanced, release-Balanced}

-- A user interns an instance, or releases one of those that it was given.
pub data Call (A : Type 0) : Type 0 where
  claim : Instance A → Call A
  give_back : ℕ → Call A

-- The table, what its users hold, and how many releases were refused.
pub record Users (A : Type 0) : Type 0 where
  pub table : AttrTable A
  pub claims : List (Instance A)
  pub refused : ℕ

abbrev put_back :
    {A : Type 0}
    → Instance A
    → Option (Instance A × List (Instance A))
    → Option (Instance A × List (Instance A))
put_back i none = none
put_back i (some (j, claims)) = some (j, i ∷ claims)

abbrev take_at : {A : Type 0} → ℕ → List (Instance A) → Option (Instance A × List (Instance A))
take_at n [] = none
take_at zero (i ∷ claims) = some (i, claims)
take_at (suc n) (i ∷ claims) = put_back i (take_at n claims)

abbrev refusal : Option ℕ → ℕ
refusal none = 1
refusal (some refs) = 0

module _ {A : Type 0} ⦃key : Key A⦄ where
  abbrev release_one : Users A → Option (Instance A × List (Instance A)) → Users A
  release_one u none = u
  release_one u (some (i, rest)) =
      let (table, refs) = release u.table i in
      record { table = table; claims = rest; refused = u.refused + refusal refs }

  abbrev pub apply : Call A → Users A → Users A
  apply (claim i) u =
      let (table, given) = intern u.table i in record u { table = table; claims = given ∷ u.claims }
  apply (give_back n) u = release_one u (take_at n u.claims)

  abbrev pub run : List (Call A) → Users A → Users A
  run [] u = u
  run (c ∷ calls) u = run calls (apply c u)

  -- What is taken out, in front of what is left.
  abbrev SameClaims : List (Instance A) → Option (Instance A × List (Instance A)) → Type 0
  SameClaims claims none = Unit
  SameClaims claims (some (i, rest)) =
      ((a : A) → claims_on a claims ≡ claims_on a (i ∷ rest))
      × ((a : A) (g : ℕ) → All (Shares a g) claims → All (Shares a g) (i ∷ rest))
      × (length claims ≡ length (i ∷ rest))

  SameClaims-put_back :
      (j : Instance A) (claims : List (Instance A)) (o : Option (Instance A × List (Instance A)))
      → SameClaims claims o
      → SameClaims (j ∷ claims) (put_back j o)
  SameClaims-put_back j claims none h = tt
  SameClaims-put_back j claims (some (i, rest)) (n, all, len) = (
    (λ a. let e = n a in omega arith),
    (λ a g (x, more). let both = all a g more in (both.0, (x, both.1))),
    omega arith,
  )

  take_at-SameClaims : (n : ℕ) (claims : List (Instance A)) → SameClaims claims (take_at n claims)
  take_at-SameClaims n [] = tt
  take_at-SameClaims zero (i ∷ claims) = ((λ a. refl), (λ a g all. all), refl)
  take_at-SameClaims (suc n) (i ∷ claims) =
      SameClaims-put_back i claims (take_at n claims) (take_at-SameClaims n claims)

  Entry-same :
      (a : A) (claims claims' : List (Instance A)) (o : Option (ℕ × ℕ))
      → claims_on a claims ≡ claims_on a claims'
      → ((g : ℕ) → All (Shares a g) claims → All (Shares a g) claims')
      → Entry a claims o
      → Entry a claims' o
  Entry-same a claims claims' none e f h = sym e ∙ h
  Entry-same a claims claims' (some (g, refs)) e f (n, pos, all) = (sym e ∙ n, pos, f g all)

  counts-found :
      (t : AttrTable A) (i : Instance A) (o : Option (ℕ × ℕ))
      → (let r = (found_or_new t i o).0 in
          (r.hits + r.misses ≡ suc (t.hits + t.misses)) × (r.releases ≡ t.releases))
  counts-found t (h, a) none = (omega arith, refl)
  counts-found t (h, a) (some (g, refs)) = (omega arith, refl)

  counts-released :
      (t : AttrTable A) (i : Instance A) (o : Option (ℕ × ℕ))
      → (let r = release_found t i o in
          (r.0.hits + r.0.misses ≡ t.hits + t.misses)
          × (r.0.releases + refusal r.1 ≡ suc t.releases))
  counts-released t (h, a) none = (refl, omega arith)
  counts-released t (h, a) (some (g, refs)) = elim (Bool-cases (eqb g h)) [
    | inl e ↦ rw e (elim (Bool-cases (leb refs 1)) [
      | inl last ↦ rw last (refl, omega arith)
      | inr more ↦ rw more (refl, omega arith)
    ])
    | inr e ↦ rw e (refl, omega arith)
  ]

  -- The table is in balance with the claims, no release was refused, and the counters agree.
  abbrev pub Paired : Users A → Type 0
  Paired u =
      Balanced u.table u.claims
      × (u.refused ≡ 0)
      × (u.table.hits + u.table.misses ≡ u.table.releases + length u.claims)

  release_one-Paired :
      (u : Users A) (o : Option (Instance A × List (Instance A)))
      → SameClaims u.claims o
      → Paired u
      → Paired (release_one u o)
  release_one-Paired u none s h = h
  release_one-Paired u (some (i, rest)) (n, all, len) (b, zero_refused, counts) =
      let (after, result) =
        release-Balanced u.table i rest
          (λ a. Entry-same a u.claims (i ∷ rest) (get a u.table.sets) (n a) (all a) (b a)) in
      let (kept, more) = counts-released u.table i (get i.1 u.table.sets) in
      let none_refused : refusal (release u.table i).1 ≡ 0 = ap refusal result in
      (after, omega arith, omega arith)

  apply-Paired : (c : Call A) (u : Users A) → Paired u → Paired (apply c u)
  apply-Paired (claim i) u (b, zero_refused, counts) =
      let (more, kept) = counts-found u.table i (get i.1 u.table.sets) in
      (intern-Balanced u.table i u.claims b, zero_refused, omega arith)
  apply-Paired (give_back n) u h =
      release_one-Paired u (take_at n u.claims) (take_at-SameClaims n u.claims) h

  run-Paired : (calls : List (Call A)) (u : Users A) → Paired u → Paired (run calls u)
  run-Paired [] u h = h
  run-Paired (c ∷ calls) u h = run-Paired calls (apply c u) (apply-Paired c u h)

  abbrev pub nobody_yet : Users A
  nobody_yet = record { table = new; claims = []; refused = 0 }

  -- After any calls on an empty table, each release of an instance that intern returned: a set is in the
  -- table exactly as long as there are claims on it, with as many references, all of its claims are on
  -- the one instance, no release was refused, and hits and misses are releases and claims.
  pub intern_and_release : (calls : List (Call A)) → Paired (run calls nobody_yet)
  intern_and_release calls =
      run-Paired calls nobody_yet ((λ a. subst (Entry a []) (sym (get-nil a)) refl), refl, refl)
