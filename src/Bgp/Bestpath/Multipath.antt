-- ===== src/Bgp/Bestpath/Multipath.antt =====
-- packets/routing/rtengine/plugins/bgp/bestpath.pyx: the multipath set that `_fill_multipath` makes.
use packets.Base.{
  ℕ, ◌≤◌, ◌<◌, ◌+◌, Bool, true, false, not, ◌&&◌, Option, none, some, List, [], ◌∷◌, ◌++◌, length,
  length-append, ◌≡◌, ◌⊎◌, inl, inr, refl, sym, ap, if◌then◌else◌, ltb, leb, nat_key, list_key,
  Bool-cases, arith, All, All-append,
}
use mathlib.Core.Path.{subst}
use packets.Base.Members.{All-members}
use packets.Bgp.Bestpath.Compare.{BgpPath, BestpathConfig}
use packets.Bgp.Bestpath.Select.{
  BestpathResult, select, select_among, decide_among, contenders, resolved_of, fill, fill_multipath,
  is_equal_cost, multipath_limit, same_path, several, champion,
}
use packets.Bgp.Bestpath.Choice.{Candidate, resolved_of-Candidate}
use packets.Bgp.Bestpath.EqualCost.{
  EqualCost, beyond-EqualCost, both_true, same_flag_eq, second_true,
}

module _ (cfg : BestpathConfig) where
  module _ (paths : List BgpPath) (best : BgpPath) where
    -- A path that may stand beside the best one.
    abbrev pub Peer : BgpPath → Type 0
    Peer p = Candidate paths p × (same_path p best ≡ false) × EqualCost cfg best p

    peer :
        (p : BgpPath)
        → Candidate paths p
        → same_path p best ≡ false
        → is_equal_cost cfg best p ≡ true
        → Peer p
    peer p c other equal =
        let (external, rest) = both_true _ _ equal in
        let (same_as_path, beyond) = both_true _ _ rest in
        (
          c,
          other,
          beyond-EqualCost cfg best p beyond
              (same_flag_eq best.peer.is_ebgp p.peer.is_ebgp external)
              (λ strict. sym (
                (list_key.same_iff p.attrs.as_path best.attrs.as_path).0
                  (second_true _ _ strict same_as_path))),
        )

    -- What the loop has gathered.
    abbrev Gathered : ℕ → List BgpPath → Type 0
    Gathered limit out =
        (more : List BgpPath) × (out ≡ best ∷ more) × (length out ≤ limit) × All Peer more

    append-Gathered :
        (limit : ℕ) (out : List BgpPath) (p : BgpPath)
        → leb limit (length out) ≡ false
        → Peer p
        → Gathered limit out
        → Gathered limit (out ++ p ∷ [])
    append-Gathered limit out p room x (more, e, n, all) =
        let grown : length (out ++ p ∷ []) ≡ length out + 1 = length-append out (p ∷ []) in
        (
          more ++ p ∷ [],
          ap (λ l. l ++ p ∷ []) e,
          ground arith,
          All-append Peer more (p ∷ []) all (x, tt),
        )

    step-Gathered :
        (limit : ℕ) (skipped full equal : Bool) (out : List BgpPath) (p : BgpPath)
        (rest : List BgpPath → List BgpPath)
        → ((l : List BgpPath) → Gathered limit l → Gathered limit (rest l))
        → (skipped ≡ false → full ≡ false → equal ≡ true → Gathered limit (out ++ p ∷ []))
        → Gathered limit out
        → Gathered limit (
            if not skipped && full
            then out
            else rest (if skipped then out else if equal then out ++ p ∷ [] else out))
    step-Gathered limit true full equal out p rest f g h = f out h
    step-Gathered limit false true equal out p rest f g h = h
    step-Gathered limit false false true out p rest f g h = f (out ++ p ∷ []) (g refl refl refl)
    step-Gathered limit false false false out p rest f g h = f out h

    fill-Gathered :
        (limit : ℕ) (l out : List BgpPath)
        → All (Candidate paths) l
        → Gathered limit out
        → Gathered limit (fill cfg limit best out l)
    unfolding fill
    fill-Gathered limit [] out all h = h
    fill-Gathered limit (p ∷ l) out all h =
        step-Gathered limit (same_path p best) (leb limit (length out)) (is_equal_cost cfg best p)
          out p (λ o. fill cfg limit best o l) (λ o g. fill-Gathered limit l o all.1 g)
          (λ other room equal. append-Gathered limit out p room (peer p all.0 other equal) h) h

    -- A multipath set is empty, or the best path with at least one more and no more than the limit, each at
    -- equal cost.
    abbrev pub MultipathOf : List BgpPath → Type 0
    MultipathOf out =
        (out ≡ [])
        ⊎ ((more : List BgpPath) × (out ≡ best ∷ more)
            × (1 < length out)
            × (length out ≤ multipath_limit cfg best)
            × All Peer more)

    several-MultipathOf :
        (limit : ℕ) (out : List BgpPath)
        → multipath_limit cfg best ≡ limit
        → Gathered limit out
        → MultipathOf (several out)
    several-MultipathOf limit out e (more, o, n, all) = elim (Bool-cases (ltb 1 (length out))) [
      | inl h ↦ rw h (inr (more, o, ground arith, ground arith, all))
      | inr h ↦ rw h (inl refl)
    ]

    fill_multipath-MultipathOf : MultipathOf (fill_multipath cfg (resolved_of paths) best)
    unfolding fill_multipath
    fill_multipath-MultipathOf = elim (Bool-cases (leb (multipath_limit cfg best) 1)) [
      | inl h ↦ rw h (inl refl)
      | inr h ↦ rw h (
          several-MultipathOf (multipath_limit cfg best) _ refl (
            fill-Gathered (multipath_limit cfg best) (resolved_of paths) (best ∷ [])
              (All-members (Candidate paths) (resolved_of paths) (resolved_of-Candidate paths))
              ([], refl, ground arith, tt)))
    ]

  abbrev pub IsMultipath : List BgpPath → BestpathResult → Option BgpPath → Type 0
  IsMultipath paths result none = result.multipath ≡ []
  IsMultipath paths result (some best) = MultipathOf paths best result.multipath

  decide-IsMultipath :
      (paths : List BgpPath) (n : ℕ) (winners : List BgpPath)
      → (let r = decide_among cfg n (resolved_of paths) winners in IsMultipath paths r r.best)
  decide-IsMultipath paths n [] = refl
  decide-IsMultipath paths n (w ∷ winners) =
      fill_multipath-MultipathOf paths (champion cfg w winners)

  among-IsMultipath :
      (paths : List BgpPath) (n : ℕ) (l : List BgpPath)
      → resolved_of paths ≡ l
      → (let r = select_among cfg n l in IsMultipath paths r r.best)
  among-IsMultipath paths n [] e = refl
  among-IsMultipath paths n (p ∷ []) e = inl refl
  among-IsMultipath paths n (p ∷ q ∷ l) e =
      subst
        (λ k.
          (let r = decide_among cfg n k (contenders cfg (p ∷ q ∷ l)) in IsMultipath paths r r.best))
        e (decide-IsMultipath paths n (contenders cfg (p ∷ q ∷ l)))

  -- Without a best path the multipath set of a selection is empty; with one it is empty, or it is the best
  -- path and at least one more, no more than the limit in all, each a resolved path of the list at equal
  -- cost with the best.
  pub select-IsMultipath :
      (paths : List BgpPath) → IsMultipath paths (select cfg paths) (select cfg paths).best
  unfolding select
  select-IsMultipath paths = among-IsMultipath paths (length paths) (resolved_of paths) refl
