-- ===== src/Bgp/Capabilities/RoundTrip.antt =====
-- packets/routing/rtengine/plugins/bgp/capabilities.py: what `from_tlvs` reads of what `as_tlvs`
-- writes.
use packets.Base.{
  ℕ, Bool, true, false, Option, none, some, List, [], ◌∷◌, ◌++◌, ◌≡◌, refl, ap, ◌∙◌, if◌then◌else◌,
  eqb, leb, Bool-cases, inl, inr,
}
use mathlib.Core.Path.{subst}
use packets.Bgp.Capabilities.Families.{
  Family, Present, present, put, put_all, put_all_lem, IsAscending,
}
use packets.Bgp.Capabilities.Codec.{
  Bytes, Record, fits, RecordsFit, encode_mp_ext, decode-encode_mp_ext, decode-encode_as4,
  decode-encode_restart, decode-encode_add_path,
}
use packets.Bgp.Capabilities.Advertised.{
  Capabilities, Restart, not_advertised, bare, seconds, Tlv, none_advertised, tlv, before,
  family_tlvs, flag_tlvs, restart_tlvs, as4_tlvs, add_path_tlvs, as_tlvs, read_tlv, read_tlvs,
  from_tlvs, set_as4, set_restart, add_family,
}

-- A part of an OPEN that is written, and takes one reading to another.
abbrev Reads : Option (List Tlv) → Capabilities → Capabilities → Type 0
Reads o c d = (tlvs : List Tlv) × (o ≡ some tlvs) × (read_tlvs tlvs c ≡ d)

read_tlvs-append :
    (a b : List Tlv) (c : Capabilities) → read_tlvs (a ++ b) c ≡ read_tlvs b (read_tlvs a c)
read_tlvs-append [] b c = refl
read_tlvs-append (t ∷ a) b c = read_tlvs-append a b (read_tlv t c)

Reads-before :
    (a b : Option (List Tlv)) (c d e : Capabilities)
    → Reads a c d
    → Reads b d e
    → Reads (before a b) c e
Reads-before a b c d e (x, xe, xr) (y, ye, yr) =
    (x ++ y, rw (xe, ye), read_tlvs-append x y c ∙ ap (read_tlvs y) xr ∙ yr)

Reads-tlv :
    (code : ℕ) (value : Bytes) (o : Option Bytes) (c d : Capabilities)
    → o ≡ some value
    → read_tlv (code, value) c ≡ d
    → Reads (tlv code o) c d
Reads-tlv code value o c d e r = ((code, value) ∷ [], rw e, r)

abbrev pub FamiliesFit : List (Family × Present) → Type 0
FamiliesFit [] = Unit
FamiliesFit ((f, u) ∷ families) = (fits f ≡ true) × FamiliesFit families

abbrev pub RestartFits : Restart → Type 0
RestartFits not_advertised = Unit
RestartFits bare = Unit
RestartFits (seconds n) = leb n 4095 ≡ true

abbrev pub As4Fits : Bool → Option ℕ → Type 0
As4Fits false asn = Unit
As4Fits true none = ⊥
As4Fits true (some asn) = leb asn 4294967295 ≡ true

-- The fields fit the wire, and an AS number is there if it is advertised.
pub record IsEncodable (c : Capabilities) : Type 0 where
  pub families_fit : FamiliesFit c.afi_safi
  pub families_ascend : IsAscending c.afi_safi
  pub restart_fits : RestartFits c.graceful_restart
  pub as4_fits : As4Fits c.as4 c.asn
  pub paths_fit : RecordsFit c.add_path
  pub paths_ascend : IsAscending c.add_path

family_tlvs-Reads :
    (families : List (Family × Present)) (c : Capabilities)
    → FamiliesFit families
    → Reads (family_tlvs families) c (record c { afi_safi = put_all families c.afi_safi })
family_tlvs-Reads [] c h = ([], refl, refl)
family_tlvs-Reads ((f, present) ∷ families) c h =
    let (bytes, e, back) = decode-encode_mp_ext f h.0 in
    Reads-before _ (family_tlvs families) c (record c { afi_safi = put f present c.afi_safi }) _
      (Reads-tlv 1 bytes (encode_mp_ext f) c _ e (ap (λ o. add_family o c) back))
      (family_tlvs-Reads families (record c { afi_safi = put f present c.afi_safi }) h.1)

flag_tlvs-Reads :
    (code : ℕ) (flag : Bool) (set : Bool → Capabilities)
    → read_tlv (code, []) (set false) ≡ set true
    → Reads (flag_tlvs code flag) (set false) (set flag)
flag_tlvs-Reads code true set e = ((code, []) ∷ [], refl, e)
flag_tlvs-Reads code false set e = ([], refl, refl)

-- What is read of a Restart Time: one of 0 is not written.
abbrev pub normal : Restart → Restart
normal not_advertised = not_advertised
normal bare = bare
normal (seconds n) = if eqb n 0 then not_advertised else seconds n

restart_tlvs-Reads :
    (r : Restart) (c : Capabilities)
    → RestartFits r
    → Reads
        (restart_tlvs r)
        (record c { graceful_restart = not_advertised })
        (record c { graceful_restart = normal r })
restart_tlvs-Reads not_advertised c h = ([], refl, refl)
restart_tlvs-Reads bare c h =
    let (bytes, e, back) = decode-encode_restart 0 refl in
    Reads-tlv 64 bytes _ (record c { graceful_restart = not_advertised }) _ e
      (ap (λ o. set_restart o (record c { graceful_restart = not_advertised })) back)
restart_tlvs-Reads (seconds n) c h = elim (Bool-cases (eqb n 0)) [
  | inl z ↦ rw z ([], refl, refl)
  | inr z ↦
      let (bytes, e, back) = decode-encode_restart n h in
      rw z (
        Reads-tlv 64 bytes _ (record c { graceful_restart = not_advertised }) _ e
          (ap (λ o. set_restart o (record c { graceful_restart = not_advertised })) back ∙ rw z))
]

as4_tlvs-Reads :
    (as4 : Bool) (asn other : Option ℕ) (c : Capabilities)
    → As4Fits as4 asn
    → Reads
        (as4_tlvs as4 asn)
        (record c { as4 = false; asn = other })
        (record c { as4 = as4; asn = if as4 then asn else other })
as4_tlvs-Reads false asn other c h = ([], refl, refl)
as4_tlvs-Reads true none other c h = absurd h
as4_tlvs-Reads true (some asn) other c h =
    let (bytes, e, back) = decode-encode_as4 asn h in
    Reads-tlv 65 bytes _ (record c { as4 = false; asn = other }) _ e
      (ap (λ o. set_as4 o (record c { as4 = false; asn = other })) back)

add_path_tlvs-Reads :
    (records : List Record) (c : Capabilities)
    → RecordsFit records
    → IsAscending records
    → Reads (add_path_tlvs records) (record c { add_path = [] }) (record c { add_path = records })
add_path_tlvs-Reads [] c h a = ([], refl, refl)
add_path_tlvs-Reads (r ∷ records) c h a =
    let (bytes, e, back) = decode-encode_add_path (r ∷ records) h in
    Reads-tlv 69 bytes _ (record c { add_path = [] }) _ e
      (ap (λ l. record c { add_path = put_all l [] }) back
        ∙ ap (λ l. record c { add_path = l }) (put_all_lem (r ∷ records) a))

-- What the other side makes of the capabilities, if the OPEN has this AS number.
abbrev pub received : Capabilities → Option ℕ → Capabilities
received c asn = record c {
  asn = if c.as4 then c.asn else asn;
  graceful_restart = normal c.graceful_restart;
  unknown = [];
}

-- Capabilities that fit the wire are written, and are read back as they were: but for the AS number
-- of the OPEN if they have none, a Restart Time of 0, and the unknown ones, which are not sent.
pub from_tlvs-as_tlvs :
    (c : Capabilities) (asn : Option ℕ)
    → IsEncodable c
    → (tlvs : List Tlv) × (as_tlvs c ≡ some tlvs) × (from_tlvs tlvs asn ≡ received c asn)
unfolding as_tlvs from_tlvs
from_tlvs-as_tlvs c asn h =
    let s0 = none_advertised asn in
    let s1 = record s0 { afi_safi = c.afi_safi } in
    let s2 = record s1 { route_refresh = c.route_refresh } in
    let s3 = record s2 { extended_message = c.extended_message } in
    let s4 = record s3 { graceful_restart = normal c.graceful_restart } in
    let s5 = record s4 { as4 = c.as4; asn = if c.as4 then c.asn else asn } in
    let s6 = record s5 { add_path = c.add_path } in
    let families =
      subst (λ l. Reads (family_tlvs c.afi_safi) s0 (record s0 { afi_safi = l }))
        (put_all_lem c.afi_safi h.families_ascend)
        (family_tlvs-Reads c.afi_safi s0 h.families_fit) in
    Reads-before _ _ s0 s1 (received c asn) families (
      Reads-before _ _ s1 s2 (received c asn)
        (flag_tlvs-Reads 2 c.route_refresh (λ b. record s1 { route_refresh = b }) refl)
        (Reads-before _ _ s2 s3 (received c asn)
          (flag_tlvs-Reads 6 c.extended_message (λ b. record s2 { extended_message = b }) refl)
          (Reads-before _ _ s3 s4 (received c asn)
            (restart_tlvs-Reads c.graceful_restart s3 h.restart_fits)
            (Reads-before _ _ s4 s5 (received c asn) (as4_tlvs-Reads c.as4 c.asn asn s4 h.as4_fits)
              (Reads-before _ _ s5 s6 (received c asn)
                (add_path_tlvs-Reads c.add_path s5 h.paths_fit h.paths_ascend)
                (flag_tlvs-Reads 70 c.enhanced_route_refresh
                  (λ b. record s6 { enhanced_route_refresh = b }) refl))))))
