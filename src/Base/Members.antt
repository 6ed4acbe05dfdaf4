-- ===== src/Base/Members.antt =====
-- Membership in a list, and what holds of all members.
use mathlib.Core.Path.{◌≡◌, refl, sym}
use mathlib.Core.Path.{subst}
use mathlib.Core.Bool.{Bool, true, false, Bool-set}
use mathlib.Core.Logic.{◌⊎◌, inl, inr, ∥∥₁_elim}
use mathlib.Core.List.{List, [], ◌∷◌, Mem, Memᴰ, mem-cons_self, mem-cons_of_mem}
use mathlib.Core.List.Memᴰ.{cases_cons, not-nil}
use native.Mathlib.Omega.{arith}
use packets.Base.Tests.{if◌then◌else◌}
use packets.Base.Lists.{All}

module _ {ℓ} {A : Type ℓ} (P : A → Type 0) where
  all_at : (l : List A) (x : A) → All P l → Memᴰ x l → P x
  all_at [] x all d = absurd (not-nil d)
  all_at (y ∷ l) x all d = elim (cases_cons d) [
    | inl e ↦ subst P (sym e) all.0
    | inr m ↦ all_at l x all.1 m
  ]

  -- A test passes if what holds of all makes it pass at a member.
  pub test_at : (l : List A) (x : A) → All P l → Mem x l → (b c : Bool) → (P x → b ≡ c) → b ≡ c
  test_at l x all m b c f = ∥∥₁_elim m (Bool-set b c) (λ d. f (all_at l x all d))

  pub All-members : (l : List A) → ((x : A) → Mem x l → P x) → All P l
  All-members [] f = tt
  All-members (y ∷ l) f = (f y mem-cons_self, All-members l (λ x m. f x (mem-cons_of_mem y m)))

  pub All-map : (Q : A → Type 0) → ((x : A) → P x → Q x) → (l : List A) → All P l → All Q l
  All-map Q f [] all = tt
  All-map Q f (x ∷ l) all = (f x all.0, All-map Q f l all.1)

-- A loop that appends the elements that pass a test.
module _ {ℓ} {A : Type ℓ} where
  pub keep_head :
      (b : Bool) (x q : A) (l : List A) → b ≡ true → q ≡ x → Memᴰ q (if b then x ∷ l else l)
  keep_head true x q l h e = Memᴰ.head e
  keep_head false x q l h e = absurd (ground arith)

  pub keep_tail : (b : Bool) (x q : A) (l : List A) → Memᴰ q l → Memᴰ q (if b then x ∷ l else l)
  keep_tail true x q l m = Memᴰ.tail m
  keep_tail false x q l m = m

  pub keep_cases :
      (b : Bool) (x q : A) (l : List A) → Memᴰ q (if b then x ∷ l else l) → (q ≡ x) ⊎ Memᴰ q l
  keep_cases true x q l m = cases_cons m
  keep_cases false x q l m = inr m

  pub keep_All :
      (P : A → Type 0) (b : Bool) (x : A) (l : List A)
      → (b ≡ true → P x)
      → All P l
      → All P (if b then x ∷ l else l)
  keep_All P true x l f all = (f refl, all)
  keep_All P false x l f all = all
