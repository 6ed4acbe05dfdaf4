-- ===== src/Bgp/Bestpath/Grouping.antt =====
-- packets/routing/rtengine/plugins/bgp/bestpath.pyx: `_med_group_winners` keeps of each neighbouring AS
-- a path that none of the same AS is before.
use packets.Base.{
  ℕ, Bool, true, false, Option, none, some, List, [], ◌∷◌, ◌++◌, append_assoc, append-nil, ◌≡◌, sym,
  ap, ◌∙◌, if◌then◌else◌, eqb, ◌==◌, nat_key, ◌||◌, Bool-cases, inl, inr, arith, All, All-append,
}
use packets.Base.Dict.{Dict, get, put, get-put, get-nil}
use mathlib.Core.Path.{subst}
use mathlib.Core.List.{Mem, mem-append_left, mem-append_right, mem-cons_self}
use packets.Bgp.Bestpath.Compare.{BgpPath, BestpathConfig, path_cmp}
use packets.Bgp.Bestpath.Ranking.{decision, decision-IsOrder, path_cmp-decision}
use packets.Bgp.Bestpath.Select.{group_winners, entered, stronger}
use packets.Bgp.Bestpath.Champion.{Stands, Stands-self, stronger-Stands, stronger-at}

module _ (cfg : BestpathConfig) where
  abbrev Outdoes : ℕ → BgpPath → BgpPath → Type 0
  Outdoes k w q = eqb q.attrs.neighbor_as k ≡ true → Stands (decision cfg true) w q

  abbrev Outside : ℕ → BgpPath → Type 0
  Outside k q = eqb q.attrs.neighbor_as k ≡ false

  -- What the group of a key is, of the paths seen.
  abbrev pub Grouped : List BgpPath → ℕ → Option BgpPath → Type 0
  Grouped seen k none = All (Outside k) seen
  Grouped seen k (some w) = Mem w seen × (eqb w.attrs.neighbor_as k ≡ true) × All (Outdoes k w) seen

  same_as :
      (a b : BgpPath) (k : ℕ)
      → eqb a.attrs.neighbor_as k ≡ true
      → eqb b.attrs.neighbor_as k ≡ true
      → eqb a.attrs.neighbor_as b.attrs.neighbor_as ≡ true
  same_as a b k x y = ground arith

  either_true : (a b : Bool) → b ≡ true → (a || b) ≡ true
  either_true a b e = ground arith

  pub path_cmp-same_as :
      (a b : BgpPath)
      → eqb a.attrs.neighbor_as b.attrs.neighbor_as ≡ true
      → (path_cmp cfg a b).0 ≡ decision cfg true a b
  path_cmp-same_as a b e =
      path_cmp-decision cfg a b
      ∙ ap (λ m. decision cfg m a b) (either_true cfg.always_compare_med _ e)

  other_key :
      (seen : List BgpPath) (k : ℕ) (p : BgpPath) (o : Option BgpPath)
      → eqb p.attrs.neighbor_as k ≡ false
      → Grouped seen k o
      → Grouped (seen ++ p ∷ []) k o
  other_key seen k p none e all = All-append (Outside k) seen (p ∷ []) all (e, tt)
  other_key seen k p (some w) e (m, key, all) = (
    mem-append_left (p ∷ []) m,
    key,
    All-append (Outdoes k w) seen (p ∷ []) all ((λ same. absurd (ground arith)), tt),
  )

  All-weaken :
      (P Q : BgpPath → Type 0)
      → ((q : BgpPath) → P q → Q q)
      → (l : List BgpPath) → All P l
      → All Q l
  All-weaken P Q f [] all = tt
  All-weaken P Q f (x ∷ l) all = (f x all.0, All-weaken P Q f l all.1)

  own_key :
      (seen : List BgpPath) (p : BgpPath) (o : Option BgpPath)
      → Grouped seen p.attrs.neighbor_as o
      → Grouped (seen ++ p ∷ []) p.attrs.neighbor_as (some (entered cfg p o))
  own_key seen p none all = (
    mem-append_right seen mem-cons_self,
    ground arith,
    All-append (Outdoes p.attrs.neighbor_as p) seen (p ∷ [])
        (All-weaken (Outside p.attrs.neighbor_as) (Outdoes p.attrs.neighbor_as p)
          (λ q out same. absurd (ground arith)) seen all)
        ((λ same. Stands-self (decision cfg true) (decision-IsOrder cfg true) p), tt),
  )
  own_key seen p (some w) (m, key, all) =
      let k = p.attrs.neighbor_as in
      let order = decision-IsOrder cfg true in
      let next = stronger cfg w p in
      let (over_w, over_p) =
        stronger-Stands (decision cfg true) order cfg w p (path_cmp-same_as w p key) in
      (
        stronger-at (decision cfg true) order cfg (λ x. Mem x (seen ++ p ∷ [])) w p
            (mem-append_left (p ∷ []) m) (mem-append_right seen mem-cons_self),
        stronger-at (decision cfg true) order cfg (λ x. eqb x.attrs.neighbor_as k ≡ true) w p key
            (ground arith),
        All-append (Outdoes k next) seen (p ∷ [])
            (All-weaken (Outdoes k w) (Outdoes k next)
              (λ q out same. order.trans next w q over_w (out same)) seen all)
            ((λ same. over_p), tt),
      )

  Grouped-put :
      (seen : List BgpPath) (p : BgpPath) (d : Dict ℕ BgpPath)
      → ((k : ℕ) → Grouped seen k (get k d))
      → (j : ℕ)
      → Grouped (seen ++ p ∷ []) j (
          if p.attrs.neighbor_as == j
          then some (entered cfg p (get p.attrs.neighbor_as d))
          else get j d)
  Grouped-put seen p d at j =
      let key = p.attrs.neighbor_as in
      elim (Bool-cases (eqb key j)) [
        | inl e ↦ rw e (
            subst (λ i. Grouped (seen ++ p ∷ []) i (some (entered cfg p (get key d))))
              (ground arith) (own_key seen p (get key d) (at key)))
        | inr e ↦ rw e (other_key seen j p (get j d) e (at j))
      ]

  group_winners-Grouped :
      (seen paths : List BgpPath) (d : Dict ℕ BgpPath)
      → ((k : ℕ) → Grouped seen k (get k d))
      → (k : ℕ) → Grouped (seen ++ paths) k (get k (group_winners cfg paths d))
  unfolding group_winners
  group_winners-Grouped seen [] d at k =
      subst (λ l. Grouped l k (get k d)) (sym (append-nil seen)) (at k)
  group_winners-Grouped seen (p ∷ paths) d at k =
      let key = p.attrs.neighbor_as in
      let next = put key (entered cfg p (get key d)) d in
      subst (λ l. Grouped l k (get k (group_winners cfg paths next)))
        (append_assoc seen (p ∷ []) paths)
        (group_winners-Grouped (seen ++ p ∷ []) paths next
          (λ j.
            subst (Grouped (seen ++ p ∷ []) j) (sym (get-put key j (entered cfg p (get key d)) d))
              (Grouped-put seen p d at j))
          k)

  -- Of each neighbouring AS a path of the list stands that none of the AS is before, if there is any.
  pub groups-Grouped :
      (paths : List BgpPath) (k : ℕ) → Grouped paths k (get k (group_winners cfg paths []))
  groups-Grouped paths k =
      group_winners-Grouped [] paths [] (λ j. subst (Grouped [] j) (sym (get-nil j)) tt) k
