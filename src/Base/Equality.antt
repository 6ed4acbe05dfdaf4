-- ===== src/Base/Equality.antt =====
-- Equality tests as an interface: the keys of a `dict` and the members of a set.
use Prim.Native.Nat.{ℕ}
use Prim.Native.String.{String}
use mathlib.Core.Path.{◌≡◌}
use mathlib.Core.Logic.{◌↔◌}
use mathlib.Core.Bool.{Bool, true, false, not, ◌&&◌}
use mathlib.Core.List.{List, [], ◌∷◌}
use native.Mathlib.Omega.{arith}
use text.Mathlib.Text.{◌==◌ as equal_texts}
use text.Mathlib.TextEquality.{eq_iff as equal_texts_iff}
use packets.Base.Tests.{eqb, eqb_iff}

-- What Python needs of a key: `==`, which decides equality.
pub record Key {ℓ} (K : Type ℓ) : Type ℓ where
  pub same : K → K → Bool
  pub same_iff : (j k : K) → (same j k ≡ true) ↔ (j ≡ k)

instance abbrev pub string_key : Key String
string_key = record { same = equal_texts; same_iff = equal_texts_iff }

instance abbrev pub nat_key : Key ℕ
nat_key = record { same = eqb; same_iff = eqb_iff }

module _ {ℓ} {K : Type ℓ} ⦃key : Key K⦄ where
  infix 50 ◌==◌
  abbrev pub ◌==◌ : K → K → Bool
  j == k = key.same j k

module _ {ℓ κ} {J : Type ℓ} {K : Type κ} ⦃k : Key J⦄ ⦃l : Key K⦄ where
  abbrev same_pair : J × K → J × K → Bool
  same_pair p q = k.same p.0 q.0 && l.same p.1 q.1

  pub same_pair_iff : (p q : J × K) → (same_pair p q ≡ true) ↔ (p ≡ q)
  same_pair_iff p q = ground (arith, k.same_iff p.0 q.0, l.same_iff p.1 q.1)

  instance abbrev pub pair_key : Key (J × K)
  pair_key = record { same = same_pair; same_iff = same_pair_iff }

abbrev same_bool : Bool → Bool → Bool
same_bool true b = b
same_bool false b = not b

pub same_bool_iff : (b c : Bool) → (same_bool b c ≡ true) ↔ (b ≡ c)
same_bool_iff b c = ground arith

instance abbrev pub bool_key : Key Bool
bool_key = record { same = same_bool; same_iff = same_bool_iff }

module _ {ℓ} {K : Type ℓ} ⦃key : Key K⦄ where
  abbrev same_list : List K → List K → Bool
  same_list [] [] = true
  same_list [] (y ∷ ys) = false
  same_list (x ∷ xs) [] = false
  same_list (x ∷ xs) (y ∷ ys) = key.same x y && same_list xs ys

  pub same_list_iff : (xs ys : List K) → (same_list xs ys ≡ true) ↔ (xs ≡ ys)
  same_list_iff [] [] = ground arith
  same_list_iff [] (y ∷ ys) = ground arith
  same_list_iff (x ∷ xs) [] = ground arith
  same_list_iff (x ∷ xs) (y ∷ ys) = ground (arith, key.same_iff x y, same_list_iff xs ys)

  instance abbrev pub list_key : Key (List K)
  list_key = record { same = same_list; same_iff = same_list_iff }
