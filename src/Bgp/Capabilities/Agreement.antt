-- ===== src/Bgp/Capabilities/Agreement.antt =====
-- packets/routing/rtengine/plugins/bgp/capabilities.py: what is in use after `negotiate`.
use packets.Base.{
  Bool, true, false, not, ◌&&◌, ◌||◌, [], ◌∷◌, ◌≡◌, refl, sym, ap, ◌∙◌, if◌then◌else◌, arith,
  Bool-cases, inl, inr,
}
use packets.Bgp.Capabilities.Families.{Family, present, same_family, get}
use packets.Bgp.Capabilities.Advertised.{Capabilities}
use packets.Bgp.Capabilities.Negotiation.{
  Families, has, keep, is_empty, ipv4_unicast, families_of, crosswise, negotiate, missing_required,
  sends, receives, direction,
}

same_family-eq : (f g : Family) → same_family f g ≡ true → f ≡ g
same_family-eq f g e = ground arith

and_off : (b c : Bool) → c ≡ false → (b && c) ≡ false
and_off b c e = ground arith

-- A member of what is kept is a member that passes.
pub has-keep :
    (test : Family → Bool) (f : Family) (families : Families)
    → has f (keep test families) ≡ (has f families && test f)
unfolding keep get
has-keep test f [] = refl
has-keep test f ((g, u) ∷ families) = elim (Bool-cases (same_family f g)) [
  | inl same ↦
      let e : test f ≡ test g = ap test (same_family-eq f g same) in
      elim (Bool-cases (test g)) [
        | inl on ↦ rw (on, same, e, on)
        | inr off ↦
            rw (off, same)
              (has-keep test f families
                ∙ and_off (has f families) (test f) (e ∙ off)
                ∙ sym (e ∙ off))
      ]
  | inr other ↦ elim (Bool-cases (test g)) [
    | inl on ↦ rw (on, other) (has-keep test f families)
    | inr off ↦ rw (off, other) (has-keep test f families)
  ]
]

keep-nil : (families : Families) → keep (λ f. has f []) families ≡ []
unfolding keep get
keep-nil [] = refl
keep-nil (f ∷ families) = keep-nil families

has-ipv4 :
    (f : Family) (b : Bool)
    → has f (if b then (ipv4_unicast, present) ∷ [] else []) ≡ (b && same_family f ipv4_unicast)
unfolding get
has-ipv4 f false = refl
has-ipv4 f true = elim (Bool-cases (same_family f ipv4_unicast)) [
  | inl same ↦ rw same
  | inr other ↦ rw other
]

ipv4-local :
    (f : Family) (local : Families)
    → (has ipv4_unicast local && same_family f ipv4_unicast)
      ≡ (has f local && same_family f ipv4_unicast)
ipv4-local f local = elim (Bool-cases (same_family f ipv4_unicast)) [
  | inl same ↦
      ap (λ g. has g local && same_family f ipv4_unicast) (sym (same_family-eq f ipv4_unicast same))
  | inr other ↦
      and_off (has ipv4_unicast local) (same_family f ipv4_unicast) other
      ∙ sym (and_off (has f local) (same_family f ipv4_unicast) other)
]

and_or : (a b : Bool) → (a && b) ≡ (a && (b || false))
and_or a b = ground arith

has-families_of :
    (f : Family) (local remote : Families)
    → has f (families_of local remote)
      ≡ (has f local && (has f remote || (is_empty remote && same_family f ipv4_unicast)))
unfolding families_of get
has-families_of f local [] =
    rw (keep-nil local) (has-ipv4 f (has ipv4_unicast local) ∙ ipv4-local f local)
has-families_of f local (g ∷ remote) =
    rw (and_off (is_empty (keep (λ f. has f (g ∷ remote)) local)) false refl)
      (has-keep (λ f. has f (g ∷ remote)) f local ∙ and_or (has f local) (has f (g ∷ remote)))

-- A family is in use exactly if we advertise it and the peer does, or it is IPv4 unicast and the peer
-- advertises none. It may bring several paths exactly if it is in use, the peer sends them and we
-- receive them, and it is missing exactly if we advertise it and it is not in use.
pub negotiate-families :
    (local remote : Capabilities) (f : Family)
    → let n = negotiate local remote in
      (has f n.afi_safi ≡ (
        has f local.afi_safi
        && (has f remote.afi_safi || (is_empty remote.afi_safi && same_family f ipv4_unicast))))
      × (has f n.add_path_recv ≡ (
          has f n.afi_safi
          && (sends (direction (get f remote.add_path))
              && receives (direction (get f local.add_path)))))
      × (has f (missing_required local n) ≡ (has f local.afi_safi && not (has f n.afi_safi)))
unfolding negotiate missing_required
negotiate-families local remote f =
    let families = families_of local.afi_safi remote.afi_safi in
    (
      has-families_of f local.afi_safi remote.afi_safi,
      has-keep (crosswise local remote) f families,
      has-keep (λ f. not (has f families)) f local.afi_safi,
    )
