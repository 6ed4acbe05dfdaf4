-- ===== src/Policy/Aligned.antt =====
-- packets/routing/rtengine/policy/routemap.py: `_has_aligned` on an attribute that is a run of values.
use packets.Base.{
  ℕ, zero, suc, ◌≤◌, Bool, true, false, ◌||◌, List, [], ◌∷◌, ◌++◌, length, length-append, ◌≡◌, refl,
  sym, ap, ◌∙◌, if◌then◌else◌, leb, ◌==◌, nat_key, list_key, Bool-cases, inl, inr, All, arith,
}
use mathlib.Core.Path.{subst}
use packets.Rib.Route.{Bytes}
use packets.Policy.Conditions.{
  take, drop, aligned_from, has_aligned, contains, starts_with, is_empty,
}

-- The values one after the other, and whether one is among them.
abbrev pub packed_of : List Bytes → Bytes
packed_of [] = []
packed_of (value ∷ values) = value ++ packed_of values

abbrev pub is_among : Bytes → List Bytes → Bool
is_among target [] = false
is_among target (value ∷ values) = value == target || is_among target values

take-append : (v rest : Bytes) → take (length v) (v ++ rest) ≡ v
take-append [] rest = refl
take-append (x ∷ v) rest = ap (λ l. x ∷ l) (take-append v rest)

drop-append : (v rest : Bytes) → drop (length v) (v ++ rest) ≡ rest
drop-append [] rest = refl
drop-append (x ∷ v) rest = drop-append v rest

abbrev pub Wide : ℕ → Bytes → Type 0
Wide stride v = length v ≡ stride

first_round :
    (stride : ℕ) (v rest target : Bytes) (later : Bool)
    → Wide stride v
    → (if leb stride (length (v ++ rest))
        then take stride (v ++ rest) == target || later
        else false)
      ≡ (v == target || later)
first_round stride v rest target later w =
    let fits : leb stride (length (v ++ rest)) ≡ true =
      let n = length-append v rest in ground arith in
    rw fits
      (ap (λ l. l == target || later) (ap (λ n. take n (v ++ rest)) (sym w) ∙ take-append v rest))

aligned_from-packed :
    (rounds stride : ℕ) (values : List Bytes) (target : Bytes)
    → 1 ≤ stride
    → All (Wide stride) values
    → length (packed_of values) ≤ rounds
    → aligned_from rounds stride (packed_of values) target ≡ is_among target values
unfolding aligned_from
aligned_from-packed zero stride [] target pos all enough = refl
aligned_from-packed zero stride (v ∷ values) target pos all enough =
    let n = length-append v (packed_of values) in let w = all.0 in absurd (omega arith)
aligned_from-packed (suc rounds) stride [] target pos all enough = ground arith
aligned_from-packed (suc rounds) stride (v ∷ values) target pos all enough =
    let n = length-append v (packed_of values) in
    let w = all.0 in
    let rest =
      ap (λ l. aligned_from rounds stride l target)
        (ap (λ k. drop k (v ++ packed_of values)) (sym w) ∙ drop-append v (packed_of values))
      ∙ aligned_from-packed rounds stride values target pos all.1 (omega arith) in
    first_round stride v (packed_of values) target
      (aligned_from rounds stride (drop stride (v ++ packed_of values)) target) w
    ∙ ap (λ b. v == target || b) rest

starts-append : (v rest : Bytes) → starts_with v (v ++ rest) ≡ true
starts-append [] rest = refl
starts-append (x ∷ v) rest = ground (arith, starts-append v rest)

contains-starts :
    (target packed : Bytes) → starts_with target packed ≡ true → contains target packed ≡ true
contains-starts target [] e = e
contains-starts target (y ∷ packed) e = ground arith

contains-append :
    (target v rest : Bytes) → contains target rest ≡ true → contains target (v ++ rest) ≡ true
contains-append target [] rest e = e
contains-append target (x ∷ v) rest e = ground (arith, contains-append target v rest e)

among-contains :
    (target : Bytes) (values : List Bytes)
    → is_among target values ≡ true
    → contains target (packed_of values) ≡ true
among-contains target [] e = absurd (ground arith)
among-contains target (v ∷ values) e = elim (Bool-cases (v == target)) [
  | inl same ↦ contains-starts target (v ++ packed_of values) (
      subst (λ t. starts_with t (v ++ packed_of values) ≡ true)
        ((list_key.same_iff v target).0 same) (starts-append v (packed_of values)))
  | inr other ↦
      contains-append target v (packed_of values)
        (among-contains target values (subst (λ b. (b || is_among target values) ≡ true) other e))
]

is_among-absent :
    (target : Bytes) (values : List Bytes)
    → contains target (packed_of values) ≡ false
    → is_among target values ≡ false
is_among-absent target values e = elim (Bool-cases (is_among target values)) [
  | inl there ↦ let bad = sym (among-contains target values there) ∙ e in absurd (ground arith)
  | inr nowhere ↦ nowhere
]

filled : (v rest : Bytes) (stride : ℕ) → 1 ≤ stride → Wide stride v → is_empty (v ++ rest) ≡ false
filled [] rest stride pos w = absurd (omega arith)
filled (x ∷ v) rest stride pos w = refl

-- In a run of values of one positive width, `_has_aligned` finds exactly the values: what lies across two
-- of them is not found.
pub has_aligned-packed :
    (stride : ℕ) (values : List Bytes) (target : Bytes)
    → 1 ≤ stride
    → All (Wide stride) values
    → has_aligned (packed_of values) target stride ≡ is_among target values
unfolding has_aligned
has_aligned-packed stride [] target pos all = refl
has_aligned-packed stride (v ∷ values) target pos all =
    let packed = packed_of (v ∷ values) in
    rw (filled v (packed_of values) stride pos all.0) (elim (Bool-cases (contains target packed)) [
      | inl there ↦
          rw there
            (aligned_from-packed (length packed) stride (v ∷ values) target pos all (omega arith))
      | inr nowhere ↦ rw nowhere (sym (is_among-absent target (v ∷ values) nowhere))
    ])
