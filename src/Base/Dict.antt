-- ===== src/Base/Dict.antt =====
-- Python's `dict`: an association list in insertion order. Assigning to a key that is present
-- keeps its place, a new key goes to the end, and `pop` takes the entry out.
use packets.Base.Tests.{if◌then◌else◌}
use packets.Base.Equality.{Key, ◌==◌}
use mathlib.Core.Path.{◌≡◌, refl}
use mathlib.Core.Option.{Option, none, some, get_or}
use Prim.Native.Nat.{ℕ, ◌+◌}
use mathlib.Core.List.{List, [], ◌∷◌}
use native.Mathlib.Omega.{arith}

abbrev pub Dict {ℓ κ} : Type ℓ → Type κ → Type (ℓ ⊔ κ)
Dict K V = List (K × V)

module _ {ℓ κ} {K : Type ℓ} {V : Type κ} ⦃key : Key K⦄ where
  -- d.get(k)
  unfoldable pub get : K → Dict K V → Option V
  get k [] = none
  get k ((j, v) ∷ d) = if j == k then some v else get k d

  -- d[k] = v
  unfoldable pub put : K → V → Dict K V → Dict K V
  put k v [] = (k, v) ∷ []
  put k v ((j, w) ∷ d) = if j == k then (j, v) ∷ d else (j, w) ∷ put k v d

  -- d.pop(k, None)
  unfoldable pub remove : K → Dict K V → Dict K V
  remove k [] = []
  remove k ((j, w) ∷ d) = let rest = remove k d in if j == k then rest else (j, w) ∷ rest

  pub get-nil : (k : K) → get k [] ≡ none
  unfolding get
  get-nil k = refl

  pub get-put :
      (k j : K) (v : V) (d : Dict K V) → get j (put k v d) ≡ (if k == j then some v else get j d)
  unfolding get put
  get-put k j v [] = refl
  get-put k j v ((i, w) ∷ d) =
      ground (arith, get-put k j v d, key.same_iff i k, key.same_iff i j, key.same_iff k j)

  pub get-remove :
      (k j : K) (d : Dict K V) → get j (remove k d) ≡ (if k == j then none else get j d)
  unfolding get remove
  get-remove k j [] = ground arith
  get-remove k j ((i, w) ∷ d) =
      ground (arith, get-remove k j d, key.same_iff i k, key.same_iff i j, key.same_iff k j)

-- Counters: `d[k] = d.get(k, 0) + 1`.
module _ {ℓ} {K : Type ℓ} ⦃key : Key K⦄ where
  abbrev pub count_of : K → Dict K ℕ → ℕ
  count_of k d = get_or (get k d) 0

  unfoldable pub count_up : K → Dict K ℕ → Dict K ℕ
  count_up k d = put k (count_of k d + 1) d

  pub count_of-count_up :
      (k j : K) (d : Dict K ℕ)
      → count_of j (count_up k d) ≡ (if k == j then count_of j d + 1 else count_of j d)
  unfolding count_up
  count_of-count_up k j d = ground (arith, get-put k j (count_of k d + 1) d, key.same_iff k j)

-- The sum of the counters.
unfoldable pub total {ℓ} : {K : Type ℓ} → Dict K ℕ → ℕ
total [] = 0
total ((k, n) ∷ d) = n + total d

module _ {ℓ} {K : Type ℓ} ⦃key : Key K⦄ where
  total-put : (k : K) (n : ℕ) (d : Dict K ℕ) → total (put k n d) + count_of k d ≡ total d + n
  unfolding total put get
  total-put k n [] = omega arith
  total-put k n ((j, m) ∷ d) = ground (arith, total-put k n d)

  pub total-count_up : (k : K) (d : Dict K ℕ) → total (count_up k d) ≡ total d + 1
  unfolding count_up
  total-count_up k d = omega (arith, total-put k (count_of k d + 1) d)
