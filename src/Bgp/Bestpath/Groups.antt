-- ===== src/Bgp/Bestpath/Groups.antt =====
-- packets/routing/rtengine/plugins/bgp/bestpath.pyx: what `_med_group_winners` returns.
use packets.Base.{
  ℕ, Option, none, some, List, [], ◌∷◌, ◌≡◌, refl, if◌then◌else◌, eqb, ltb, nat_key, Bool-cases,
  inl, inr, arith, All,
}
use packets.Base.Dict.{Dict, get}
use mathlib.Core.Path.{subst}
use packets.Bgp.Bestpath.Compare.{BgpPath}
use packets.Bgp.Bestpath.Select.{insert_key, sorted_keys, values_at, joined}

-- What stands under a key.
abbrev AtKey : (BgpPath → Type 0) → Option BgpPath → Type 0
AtKey P none = Unit
AtKey P (some w) = P w

insert_key-All :
    (Q : ℕ → Type 0) (k : ℕ) (keys : List ℕ) → All Q (insert_key k keys) → Q k × All Q keys
unfolding insert_key
insert_key-All Q k [] all = all
insert_key-All Q k (j ∷ keys) all = elim (Bool-cases (ltb k j)) [
  | inl e ↦ subst (λ b. All Q (if b then k ∷ j ∷ keys else j ∷ insert_key k keys)) e all
  | inr e ↦
      let rest = subst (λ b. All Q (if b then k ∷ j ∷ keys else j ∷ insert_key k keys)) e all in
      let (x, more) = insert_key-All Q k keys rest.1 in (x, (rest.0, more))
]

sorted_keys-All :
    (Q : ℕ → Type 0) (d : Dict ℕ BgpPath)
    → All Q (sorted_keys d)
    → (k : ℕ) (w : BgpPath) → get k d ≡ some w
    → Q k
unfolding get
sorted_keys-All Q [] all k w e = absurd (ground arith)
sorted_keys-All Q ((j, v) ∷ d) all k w e =
    let (x, rest) = insert_key-All Q j (sorted_keys d) all in
    elim (Bool-cases (eqb j k)) [
      | inl same ↦ subst Q (ground arith) x
      | inr other ↦
          sorted_keys-All Q d rest k w
            (subst (λ b. (if b then some v else get k d) ≡ some w) other e)
    ]

joined-All :
    (P : BgpPath → Type 0) (o : Option BgpPath) (out : List BgpPath)
    → All P (joined o out)
    → AtKey P o × All P out
joined-All P none out all = (tt, all)
joined-All P (some p) out all = all

values-AtKey :
    (P : BgpPath → Type 0) (d : Dict ℕ BgpPath) (keys : List ℕ)
    → All P (values_at d keys)
    → All (λ k. AtKey P (get k d)) keys
values-AtKey P d [] all = tt
values-AtKey P d (k ∷ keys) all =
    let (x, rest) = joined-All P (get k d) (values_at d keys) all in (x, values-AtKey P d keys rest)

-- What holds of all that are returned holds of what stands under any key.
pub winners-All :
    (P : BgpPath → Type 0) (d : Dict ℕ BgpPath)
    → All P (values_at d (sorted_keys d))
    → (k : ℕ) (w : BgpPath) → get k d ≡ some w
    → P w
winners-All P d all k w e =
    subst (AtKey P) e
      (sorted_keys-All (λ k. AtKey P (get k d)) d (values-AtKey P d (sorted_keys d) all) k w e)

put_in :
    (P : BgpPath → Type 0) (o : Option BgpPath) (out : List BgpPath)
    → AtKey P o
    → All P out
    → All P (joined o out)
put_in P none out x all = all
put_in P (some p) out x all = (x, all)

values-All :
    (P : BgpPath → Type 0) (d : Dict ℕ BgpPath)
    → ((k : ℕ) → AtKey P (get k d))
    → (keys : List ℕ) → All P (values_at d keys)
values-All P d at [] = tt
values-All P d at (k ∷ keys) = put_in P (get k d) (values_at d keys) (at k) (values-All P d at keys)

at_key :
    (P : BgpPath → Type 0) (o : Option BgpPath) → ((w : BgpPath) → o ≡ some w → P w) → AtKey P o
at_key P none f = tt
at_key P (some w) f = f w refl

-- Each that is returned stands under a key.
pub All-winners :
    (P : BgpPath → Type 0) (d : Dict ℕ BgpPath)
    → ((k : ℕ) (w : BgpPath) → get k d ≡ some w → P w)
    → All P (values_at d (sorted_keys d))
All-winners P d f = values-All P d (λ k. at_key P (get k d) (f k)) (sorted_keys d)
