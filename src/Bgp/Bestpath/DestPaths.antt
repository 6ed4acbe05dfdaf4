-- ===== src/Bgp/Bestpath/DestPaths.antt =====
-- packets/routing/rtengine/plugins/bgp/bestpath.pyx: the loops of `BgpDest` over its paths.
use packets.Base.{
  ℕ, Bool, true, false, ◌&&◌, Option, none, some, List, [], ◌∷◌, ◌++◌, ◌≡◌, refl, sym, ap, ◌∙◌,
  if◌then◌else◌, eqb, ltb, Bool-cases, inl, inr, arith,
}
use mathlib.Core.Path.{subst}
use packets.Bgp.Bestpath.Compare.{BgpPath}
use packets.Bgp.Bestpath.Dest.{is_from, find_in, past, replaced, taken, kept}

-- No two paths with the same peer and identifier.
abbrev pub OneEach : List BgpPath → Type 0
OneEach [] = Unit
OneEach (p ∷ paths) = (find_in p.peer.handle p.path_id paths ≡ none) × OneEach paths

-- The paths after `add`
abbrev pub with_path : BgpPath → List BgpPath → Option (BgpPath × List BgpPath) → List BgpPath
with_path path paths none = paths ++ path ∷ []
with_path path paths (some (old, l)) = l

with_path-past :
    (path old : BgpPath) (paths : List BgpPath) (b : Bool) (o : Option (BgpPath × List BgpPath))
    → with_path path (old ∷ paths) (if b then some (old, path ∷ paths) else past old o)
      ≡ (if b then path ∷ paths else old ∷ with_path path paths o)
with_path-past path old paths true o = refl
with_path-past path old paths false none = refl
with_path-past path old paths false (some (p, l)) = refl

abbrev pub added : BgpPath → List BgpPath → List BgpPath
added path paths = with_path path paths (replaced path paths)

added-cons :
    (path old : BgpPath) (paths : List BgpPath)
    → added path (old ∷ paths)
      ≡ (if is_from path.peer.handle path.path_id old then path ∷ paths else old ∷ added path paths)
unfolding replaced
added-cons path old paths =
    with_path-past path old paths (is_from path.peer.handle path.path_id old) (replaced path paths)

pub find-added :
    (h i : ℕ) (path : BgpPath) (paths : List BgpPath)
    → find_in h i (added path paths)
      ≡ (if eqb path.peer.handle h && eqb path.path_id i then some path else find_in h i paths)
unfolding find_in replaced
find-added h i path [] = ground arith
find-added h i path (old ∷ paths) =
    ap (find_in h i) (added-cons path old paths)
    ∙ elim (Bool-cases (is_from path.peer.handle path.path_id old)) [
      | inl e ↦ rw e (ground arith)
      | inr e ↦ rw e (ground (arith, find-added h i path paths))
    ]

pub OneEach-added :
    (path : BgpPath) (paths : List BgpPath) → OneEach paths → OneEach (added path paths)
unfolding find_in replaced
OneEach-added path [] one = (refl, tt)
OneEach-added path (old ∷ paths) (fresh, one) =
    subst OneEach (sym (added-cons path old paths))
      (elim (Bool-cases (is_from path.peer.handle path.path_id old)) [
        | inl e ↦ rw e (
          ap (λ h. find_in h path.path_id paths) (ground arith)
              ∙ ap (λ i. find_in old.peer.handle i paths) (ground arith)
              ∙ fresh,
          one,
        )
        | inr e ↦ rw e (
          find-added old.peer.handle old.path_id path paths ∙ ground arith,
          OneEach-added path paths one,
        )
      ])

-- The paths after `remove`
abbrev pub without : List BgpPath → Option (BgpPath × List BgpPath) → List BgpPath
without paths none = paths
without paths (some (p, l)) = l

without-past :
    (x : BgpPath) (paths : List BgpPath) (b : Bool) (o : Option (BgpPath × List BgpPath))
    → without (x ∷ paths) (if b then some (x, paths) else past x o)
      ≡ (if b then paths else x ∷ without paths o)
without-past x paths true o = refl
without-past x paths false none = refl
without-past x paths false (some (p, l)) = refl

abbrev pub left : ℕ → ℕ → List BgpPath → List BgpPath
left peer path_id paths = without paths (taken peer path_id paths)

left-cons :
    (peer path_id : ℕ) (p : BgpPath) (paths : List BgpPath)
    → left peer path_id (p ∷ paths)
      ≡ (if is_from peer path_id p then paths else p ∷ left peer path_id paths)
unfolding taken
left-cons peer path_id p paths =
    without-past p paths (is_from peer path_id p) (taken peer path_id paths)

pub find-left :
    (h i peer path_id : ℕ) (paths : List BgpPath)
    → OneEach paths
    → find_in h i (left peer path_id paths)
      ≡ (if eqb peer h && eqb path_id i then none else find_in h i paths)
unfolding find_in taken
find-left h i peer path_id [] one = ground arith
find-left h i peer path_id (p ∷ paths) (fresh, one) =
    ap (find_in h i) (left-cons peer path_id p paths) ∙ elim (Bool-cases (is_from peer path_id p)) [
      | inl e ↦ rw e (elim (Bool-cases (eqb peer h && eqb path_id i)) [
        | inl same ↦ rw same (
            ap (λ k. find_in k i paths) (ground arith)
            ∙ ap (λ j. find_in p.peer.handle j paths) (ground arith)
            ∙ fresh)
        | inr other ↦ ground arith
      ])
      | inr e ↦ rw e (ground (arith, find-left h i peer path_id paths one))
    ]

pub OneEach-left :
    (peer path_id : ℕ) (paths : List BgpPath) → OneEach paths → OneEach (left peer path_id paths)
unfolding find_in taken
OneEach-left peer path_id [] one = tt
OneEach-left peer path_id (p ∷ paths) (fresh, one) =
    subst OneEach (sym (left-cons peer path_id p paths))
      (elim (Bool-cases (is_from peer path_id p)) [
        | inl e ↦ rw e one
        | inr e ↦ rw e (
          find-left p.peer.handle p.path_id peer path_id paths one ∙ ground arith,
          OneEach-left peer path_id paths one,
        )
      ])

pub find-kept :
    (h i peer : ℕ) (paths : List BgpPath)
    → find_in h i (kept peer paths).0 ≡ (if eqb peer h then none else find_in h i paths)
unfolding find_in kept
find-kept h i peer [] = ground arith
find-kept h i peer (p ∷ paths) = ground (arith, find-kept h i peer paths)

pub OneEach-kept : (peer : ℕ) (paths : List BgpPath) → OneEach paths → OneEach (kept peer paths).0
unfolding kept
OneEach-kept peer [] one = tt
OneEach-kept peer (p ∷ paths) (fresh, one) = elim (Bool-cases (eqb p.peer.handle peer)) [
  | inl e ↦ rw e (OneEach-kept peer paths one)
  | inr e ↦
      rw e
        (find-kept p.peer.handle p.path_id peer paths ∙ ground arith, OneEach-kept peer paths one)
]

-- Where none is taken out, the list is the same.
pub kept-none :
    (peer : ℕ) (paths : List BgpPath)
    → ltb 0 (kept peer paths).1 ≡ false
    → (kept peer paths).0 ≡ paths
unfolding kept
kept-none peer [] e = refl
kept-none peer (p ∷ paths) e = elim (Bool-cases (eqb p.peer.handle peer)) [
  | inl same ↦ absurd (ground arith)
  | inr other ↦ rw other (ap (λ l. p ∷ l) (kept-none peer paths (ground arith)))
]

abbrev pub what_of : Option (BgpPath × List BgpPath) → Option BgpPath
what_of none = none
what_of (some (p, l)) = some p

what_of-past :
    (x p : BgpPath) (l : List BgpPath) (b : Bool) (o : Option (BgpPath × List BgpPath))
    → what_of (if b then some (x, l) else past x o) ≡ (if b then some x else what_of o)
what_of-past x p l true o = refl
what_of-past x p l false none = refl
what_of-past x p l false (some (q, k)) = refl

pub replaced-find :
    (path : BgpPath) (paths : List BgpPath)
    → what_of (replaced path paths) ≡ find_in path.peer.handle path.path_id paths
unfolding find_in replaced
replaced-find path [] = refl
replaced-find path (old ∷ paths) =
    what_of-past old path (path ∷ paths) (is_from path.peer.handle path.path_id old)
      (replaced path paths)
    ∙ ap (λ o. if is_from path.peer.handle path.path_id old then some old else o)
        (replaced-find path paths)

pub taken-find :
    (peer path_id : ℕ) (paths : List BgpPath)
    → what_of (taken peer path_id paths) ≡ find_in peer path_id paths
unfolding find_in taken
taken-find peer path_id [] = refl
taken-find peer path_id (p ∷ paths) =
    what_of-past p p paths (is_from peer path_id p) (taken peer path_id paths)
    ∙ ap (λ o. if is_from peer path_id p then some p else o) (taken-find peer path_id paths)
