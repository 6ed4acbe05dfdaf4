-- ===== src/Bgp/Bestpath/Ranking.antt =====
-- packets/routing/rtengine/plugins/bgp/bestpath.pyx: `path_cmp` orders the paths of one neighbouring
-- AS, and those that differ in it.
use packets.Base.{
  ℕ, Bool, true, false, not, ◌&&◌, ◌||◌, ◌≡◌, refl, ap, length, if◌then◌else◌, eqb, arith,
}
use packets.Rib.RouteTable.Select.{Sign, before, tie, after}
use packets.Bgp.Bestpath.Order.{
  or_else, smaller, by_bytes, IsOrder, then-IsOrder, pull-IsOrder, smaller-IsOrder, larger-IsOrder,
  bytes-IsOrder,
}
use packets.Bgp.Bestpath.Compare.{
  BgpPath, BestpathConfig, path_cmp, ask, ask_if, set_first, local_pref_of, med_of, router_id_of,
  cmp_addr,
}

first-ask : (s : Sign) (step : ℕ) (rest : Sign × ℕ) → (ask s step rest).0 ≡ or_else s rest.0
unfolding ask
first-ask before step rest = refl
first-ask tie step rest = refl
first-ask after step rest = refl

abbrev pub when : Bool → Sign → Sign
when b s = if b then s else tie

first-ask_if :
    (b : Bool) (s : Sign) (step : ℕ) (rest : Sign × ℕ)
    → (ask_if b s step rest).0 ≡ or_else (when b s) rest.0
unfolding ask_if
first-ask_if true s step rest = first-ask s step rest
first-ask_if false s step rest = refl

-- A later criterion matters only where the first ties.
after_tie : (s t u : Sign) → (s ≡ tie → t ≡ u) → or_else s t ≡ or_else s u
after_tie before t u f = refl
after_tie tie t u f = f refl
after_tie after t u f = refl

age_step :
    (by_age a b : Bool) (s t : ℕ)
    → smaller (set_first a) (set_first b) ≡ tie
    → when (by_age && (a && b)) (smaller s t)
      ≡ smaller (if by_age && a then s else 0) (if by_age && b then t else 0)
age_step false a b s t e = refl
age_step true true true s t e = refl
age_step true true false s t e = absurd (ground arith)
age_step true false true s t e = absurd (ground arith)
age_step true false false s t e = refl

or_else-tie : (s : Sign) → or_else s tie ≡ s
or_else-tie before = refl
or_else-tie tie = refl
or_else-tie after = refl

keep_tie : (s t u : Sign) → (t ≡ tie → u ≡ tie) → or_else s t ≡ tie → or_else s u ≡ tie
keep_tie before t u f e = e
keep_tie tie t u f e = f e
keep_tie after t u f e = e

drop_first : (s t : Sign) → or_else s t ≡ tie → t ≡ tie
drop_first before t e = absurd (ground arith)
drop_first tie t e = e
drop_first after t e = absurd (ground arith)

addr-IsOrder : IsOrder cmp_addr
addr-IsOrder =
    then-IsOrder (λ x y. smaller (length x) (length y)) by_bytes
      (pull-IsOrder (λ x. length x) smaller smaller-IsOrder) bytes-IsOrder

module _ (cfg : BestpathConfig) where
  -- The age of an external path, where it counts.
  abbrev age_of : BgpPath → ℕ
  age_of p = if not cfg.compare_router_id && p.peer.is_ebgp then p.recv_time else 0

  abbrev last_steps : BgpPath → BgpPath → Sign
  last_steps a b =
      or_else (smaller (router_id_of a) (router_id_of b)) (
        or_else (smaller a.attrs.cluster_len b.attrs.cluster_len)
          (cmp_addr a.peer.addr b.peer.addr))

  abbrev middle_steps : BgpPath → BgpPath → Sign
  middle_steps a b = or_else (smaller (set_first a.peer.is_ebgp) (set_first b.peer.is_ebgp)) (
      or_else (smaller a.igp_metric b.igp_metric)
        (or_else (smaller (age_of a) (age_of b)) (last_steps a b)))

  abbrev med_step : Bool → BgpPath → BgpPath → Sign
  med_step meds a b = or_else (when meds (smaller (med_of cfg a) (med_of cfg b))) (middle_steps a b)

  abbrev path_step : Bool → BgpPath → BgpPath → Sign
  path_step meds a b =
      or_else (when (not cfg.as_path_ignore) (smaller a.attrs.as_path_len b.attrs.as_path_len))
        (or_else (smaller a.attrs.origin b.attrs.origin) (med_step meds a b))

  -- The decision with or without the MED.
  abbrev pub decision : Bool → BgpPath → BgpPath → Sign
  decision meds a b = or_else (smaller (set_first a.resolved) (set_first b.resolved)) (
      or_else (smaller b.weight a.weight) (
        or_else (smaller (local_pref_of cfg b) (local_pref_of cfg a))
          (or_else (smaller a.source b.source) (path_step meds a b))))

  by :
      (k : BgpPath → ℕ) (rest : BgpPath → BgpPath → Sign)
      → IsOrder rest
      → IsOrder (λ a b. or_else (smaller (k a) (k b)) (rest a b))
  by k rest o =
      then-IsOrder (λ a b. smaller (k a) (k b)) rest (pull-IsOrder k smaller smaller-IsOrder) o

  by_larger :
      (k : BgpPath → ℕ) (rest : BgpPath → BgpPath → Sign)
      → IsOrder rest
      → IsOrder (λ a b. or_else (smaller (k b) (k a)) (rest a b))
  by_larger k rest o =
      then-IsOrder (λ a b. smaller (k b) (k a)) rest
        (pull-IsOrder k (λ x y. smaller y x) larger-IsOrder) o

  by_if :
      (b : Bool) (k : BgpPath → ℕ) (rest : BgpPath → BgpPath → Sign)
      → IsOrder rest
      → IsOrder (λ x y. or_else (when b (smaller (k x) (k y))) (rest x y))
  by_if true k rest o = by k rest o
  by_if false k rest o = o

  last-IsOrder : IsOrder last_steps
  last-IsOrder =
      by router_id_of _
        (by (λ p. p.attrs.cluster_len) _ (pull-IsOrder (λ p. p.peer.addr) cmp_addr addr-IsOrder))

  middle-IsOrder : IsOrder middle_steps
  middle-IsOrder =
      by (λ p. set_first p.peer.is_ebgp) _
        (by (λ p. p.igp_metric) _ (by age_of last_steps last-IsOrder))

  pub decision-IsOrder : (meds : Bool) → IsOrder (decision meds)
  decision-IsOrder meds =
      by (λ p. set_first p.resolved) _
        (by_larger (λ p. p.weight) _
          (by_larger (local_pref_of cfg) _ (
            by (λ p. p.source) _
              (by_if (not cfg.as_path_ignore) (λ p. p.attrs.as_path_len) _
                (by (λ p. p.attrs.origin) _
                  (by_if meds (med_of cfg) middle_steps middle-IsOrder))))))

  middle_lem :
      (a b : BgpPath)
      → or_else (smaller (set_first a.peer.is_ebgp) (set_first b.peer.is_ebgp)) (
          or_else (smaller a.igp_metric b.igp_metric) (
            or_else
              (when
                (not cfg.compare_router_id && (a.peer.is_ebgp && b.peer.is_ebgp))
                (smaller a.recv_time b.recv_time))
              (last_steps a b)))
        ≡ middle_steps a b
  middle_lem a b =
      after_tie (smaller (set_first a.peer.is_ebgp) (set_first b.peer.is_ebgp)) _ _ (λ e.
        ap (λ s. or_else (smaller a.igp_metric b.igp_metric) (or_else s (last_steps a b)))
          (age_step (not cfg.compare_router_id) a.peer.is_ebgp b.peer.is_ebgp a.recv_time
            b.recv_time e))

  -- `path_cmp` decides with the MED if it is always compared or the neighbouring AS is the same.
  pub path_cmp-decision :
      (a b : BgpPath)
      → (path_cmp cfg a b).0
        ≡ decision (cfg.always_compare_med || eqb a.attrs.neighbor_as b.attrs.neighbor_as) a b
  unfolding path_cmp
  path_cmp-decision a b = simp (first-ask, first-ask_if, or_else-tie, middle_lem a b)

  -- Paths that tie with the MED tie without it.
  pub tie-without_med : (a b : BgpPath) → decision true a b ≡ tie → decision false a b ≡ tie
  tie-without_med a b = keep_tie (smaller (set_first a.resolved) (set_first b.resolved)) _ _ (
      keep_tie (smaller b.weight a.weight) _ _ (
        keep_tie (smaller (local_pref_of cfg b) (local_pref_of cfg a)) _ _ (
          keep_tie (smaller a.source b.source) _ _ (
            keep_tie
              (when (not cfg.as_path_ignore) (smaller a.attrs.as_path_len b.attrs.as_path_len)) _ _
              (keep_tie (smaller a.attrs.origin b.attrs.origin) _ _
                (drop_first (smaller (med_of cfg a) (med_of cfg b)) (middle_steps a b)))))))

  pub tie-any : (meds : Bool) (a b : BgpPath) → decision true a b ≡ tie → decision meds a b ≡ tie
  tie-any true a b e = e
  tie-any false a b e = tie-without_med a b e
