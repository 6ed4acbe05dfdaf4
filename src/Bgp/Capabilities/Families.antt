-- ===== src/Bgp/Capabilities/Families.antt =====
-- packets/routing/rtengine/plugins/bgp/capabilities.py: the sets of address families and the
-- dictionaries keyed by them. The code reads them by membership and in ascending order, so that each
-- is the list of its entries in ascending order; a set is a dictionary to `Present`.
use packets.Base.{
  ℕ, Bool, true, false, ◌&&◌, ◌||◌, Option, none, some, List, [], ◌∷◌, ◌++◌, ◌≡◌, refl, sym, ap,
  ◌∙◌, if◌then◌else◌, eqb, ltb, arith, append-nil, append_assoc,
}

-- `(afi, safi)`
abbrev pub Family : Type 0
Family = ℕ × ℕ

pub data Present : Type 0 where
  present : Present

abbrev pub same_family : Family → Family → Bool
same_family (a, s) (b, t) = eqb a b && eqb s t

abbrev pub less : Family → Family → Bool
less (a, s) (b, t) = ltb a b || (eqb a b && ltb s t)

less_trans : (f g h : Family) → less f g ≡ true → less g h ≡ true → less f h ≡ true
less_trans f g h a b = ground arith

module _ {V : Type 0} where
  -- `d[family] = value`, or `add` to a set
  unfoldable pub put : Family → V → List (Family × V) → List (Family × V)
  put f v [] = (f, v) ∷ []
  put f v ((g, w) ∷ entries) =
      let rest = put f v entries in
      if same_family f g
      then (f, v) ∷ entries
      else if less f g
      then (f, v) ∷ (g, w) ∷ entries
      else (g, w) ∷ rest

  unfoldable pub get : Family → List (Family × V) → Option V
  get f [] = none
  get f ((g, w) ∷ entries) = let rest = get f entries in if same_family f g then some w else rest

  abbrev pub put_all : List (Family × V) → List (Family × V) → List (Family × V)
  put_all [] d = d
  put_all ((f, v) ∷ entries) d = put_all entries (put f v d)

  abbrev pub Above : Family → List (Family × V) → Type 0
  Above f [] = Unit
  Above f ((g, w) ∷ entries) = (less f g ≡ true) × Above f entries

  -- The entries are in ascending order, each family once.
  abbrev pub IsAscending : List (Family × V) → Type 0
  IsAscending [] = Unit
  IsAscending ((f, v) ∷ entries) = Above f entries × IsAscending entries

  abbrev Below : List (Family × V) → Family → Type 0
  Below [] f = Unit
  Below ((g, w) ∷ entries) f = (less g f ≡ true) × Below entries f

  put_last : (f : Family) (v : V) (d : List (Family × V)) → Below d f → put f v d ≡ d ++ (f, v) ∷ []
  unfolding put
  put_last f v [] h = refl
  put_last f v ((g, w) ∷ d) h =
      let other : same_family f g ≡ false = ground (arith, h.0) in
      let above : less f g ≡ false = ground (arith, h.0) in rw (other, above, put_last f v d h.1)

  Below-last :
      (d : List (Family × V)) (f g : Family) (v : V)
      → Below d g
      → less f g ≡ true
      → Below (d ++ (f, v) ∷ []) g
  Below-last [] f g v h e = (e, tt)
  Below-last ((k, w) ∷ d) f g v h e = (h.0, Below-last d f g v h.1 e)

  Below-step : (d : List (Family × V)) (f g : Family) → Below d f → less f g ≡ true → Below d g
  Below-step [] f g h e = tt
  Below-step ((k, w) ∷ d) f g h e = (less_trans k f g h.0 e, Below-step d f g h.1 e)

  abbrev Joins : List (Family × V) → List (Family × V) → Type 0
  Joins d [] = Unit
  Joins d ((f, v) ∷ entries) = Below d f

  Joins-next :
      (d entries : List (Family × V)) (f : Family) (v : V)
      → Below d f
      → Above f entries
      → Joins (d ++ (f, v) ∷ []) entries
  Joins-next d [] f v h a = tt
  Joins-next d ((g, w) ∷ entries) f v h a = Below-last d f g v (Below-step d f g h a.0) a.0

  put_all-append :
      (d entries : List (Family × V))
      → Joins d entries
      → IsAscending entries
      → put_all entries d ≡ d ++ entries
  put_all-append d [] j a = sym (append-nil d)
  put_all-append d ((f, v) ∷ entries) j a =
      ap (put_all entries) (put_last f v d j)
      ∙ put_all-append (d ++ (f, v) ∷ []) entries (Joins-next d entries f v j a.0) a.1
      ∙ append_assoc d ((f, v) ∷ []) entries

  Joins-nil : (entries : List (Family × V)) → Joins [] entries
  Joins-nil [] = tt
  Joins-nil ((f, v) ∷ entries) = tt

  -- Entries in ascending order make up what they are put into.
  pub put_all_lem :
      (entries : List (Family × V)) → IsAscending entries → put_all entries [] ≡ entries
  put_all_lem entries a = put_all-append [] entries (Joins-nil entries) a
