-- ===== src/Bgp/Capabilities/Advertised.antt =====
-- packets/routing/rtengine/plugins/bgp/capabilities.py: `Capabilities`, with the TLVs of an OPEN.
use packets.Base.{ℕ, Bool, true, false, Option, none, some, List, [], ◌∷◌, ◌++◌, if◌then◌else◌, eqb}
use packets.Bgp.Capabilities.Families.{Family, Present, present, put, put_all}
use packets.Bgp.Capabilities.Codec.{
  Bytes, Record, encode_mp_ext, encode_as4, encode_add_path, encode_graceful_restart, decode_mp_ext,
  decode_as4, decode_add_path, decode_restart,
}

-- `graceful_restart`: `False`, `True`, or the Restart Time.
pub data Restart : Type 0 where
  not_advertised : Restart
  bare : Restart
  seconds : ℕ → Restart

-- A code and a value.
abbrev pub Tlv : Type 0
Tlv = ℕ × Bytes

pub record Capabilities : Type 0 where
  pub asn : Option ℕ
  pub afi_safi : List (Family × Present)
  pub as4 : Bool
  pub route_refresh : Bool
  pub enhanced_route_refresh : Bool
  pub extended_message : Bool
  pub add_path : List Record
  pub graceful_restart : Restart
  pub unknown : List Tlv

abbrev pub cap_mp_ext : ℕ
cap_mp_ext = 1

abbrev pub cap_route_refresh : ℕ
cap_route_refresh = 2

abbrev pub cap_extended_message : ℕ
cap_extended_message = 6

abbrev pub cap_graceful_restart : ℕ
cap_graceful_restart = 64

abbrev pub cap_as4 : ℕ
cap_as4 = 65

abbrev pub cap_add_path : ℕ
cap_add_path = 69

abbrev pub cap_enhanced_route_refresh : ℕ
cap_enhanced_route_refresh = 70

abbrev pub cap_route_refresh_cisco : ℕ
cap_route_refresh_cisco = 128

-- `__init__` with the defaults
abbrev pub none_advertised : Option ℕ → Capabilities
none_advertised asn = record {
  asn = asn;
  afi_safi = [];
  as4 = false;
  route_refresh = false;
  enhanced_route_refresh = false;
  extended_message = false;
  add_path = [];
  graceful_restart = not_advertised;
  unknown = [];
}

abbrev pub tlv : ℕ → Option Bytes → Option (List Tlv)
tlv code none = none
tlv code (some value) = some ((code, value) ∷ [])

-- The TLVs of one part before those of the parts that follow; an error in either ends `as_tlvs`.
abbrev pub before : Option (List Tlv) → Option (List Tlv) → Option (List Tlv)
before none rest = none
before (some tlvs) none = none
before (some tlvs) (some rest) = some (tlvs ++ rest)

abbrev pub family_tlvs : List (Family × Present) → Option (List Tlv)
family_tlvs [] = some []
family_tlvs ((f, u) ∷ families) = before (tlv cap_mp_ext (encode_mp_ext f)) (family_tlvs families)

abbrev pub flag_tlvs : ℕ → Bool → Option (List Tlv)
flag_tlvs code flag = some (if flag then (code, []) ∷ [] else [])

-- A Restart Time of 0 is false, so that it is not advertised.
abbrev pub restart_tlvs : Restart → Option (List Tlv)
restart_tlvs not_advertised = some []
restart_tlvs bare = tlv cap_graceful_restart (encode_graceful_restart 0 0)
restart_tlvs (seconds n) =
    if eqb n 0 then some [] else tlv cap_graceful_restart (encode_graceful_restart n 0)

abbrev pub as4_tlvs : Bool → Option ℕ → Option (List Tlv)
as4_tlvs false asn = some []
as4_tlvs true none = none
as4_tlvs true (some asn) = tlv cap_as4 (encode_as4 asn)

abbrev pub add_path_tlvs : List Record → Option (List Tlv)
add_path_tlvs [] = some []
add_path_tlvs (r ∷ records) = tlv cap_add_path (encode_add_path (r ∷ records))

-- `as_tlvs`
unfoldable pub as_tlvs : Capabilities → Option (List Tlv)
as_tlvs c = before (family_tlvs c.afi_safi) (
    before (flag_tlvs cap_route_refresh c.route_refresh) (
      before (flag_tlvs cap_extended_message c.extended_message) (
        before (restart_tlvs c.graceful_restart) (
          before (as4_tlvs c.as4 c.asn) (
            before (add_path_tlvs c.add_path)
              (flag_tlvs cap_enhanced_route_refresh c.enhanced_route_refresh))))))

abbrev pub add_family : Option Family → Capabilities → Capabilities
add_family none c = c
add_family (some f) c = record c { afi_safi = put f present c.afi_safi }

abbrev pub set_as4 : Option ℕ → Capabilities → Capabilities
set_as4 none c = c
set_as4 (some asn) c = record c { as4 = true; asn = some asn }

-- `restart or True`
abbrev pub set_restart : Option ℕ → Capabilities → Capabilities
set_restart none c = c
set_restart (some n) c = record c { graceful_restart = if eqb n 0 then bare else seconds n }

abbrev pub keep_unknown : Tlv → Capabilities → Capabilities
keep_unknown t c = record c { unknown = c.unknown ++ t ∷ [] }

-- The body of the loop of `from_tlvs`
abbrev pub read_tlv : Tlv → Capabilities → Capabilities
read_tlv (code, value) c =
    if eqb code cap_mp_ext
    then add_family (decode_mp_ext value) c
    else if eqb code cap_route_refresh
    then record c { route_refresh = true }
    else if eqb code cap_route_refresh_cisco
    then keep_unknown (code, value) (record c { route_refresh = true })
    else if eqb code cap_enhanced_route_refresh
    then record c { enhanced_route_refresh = true }
    else if eqb code cap_extended_message
    then record c { extended_message = true }
    else if eqb code cap_as4
    then set_as4 (decode_as4 value) c
    else if eqb code cap_add_path
    then record c { add_path = put_all (decode_add_path value) c.add_path }
    else if eqb code cap_graceful_restart
    then set_restart (decode_restart value) c
    else keep_unknown (code, value) c

abbrev pub read_tlvs : List Tlv → Capabilities → Capabilities
read_tlvs [] c = c
read_tlvs (t ∷ tlvs) c = read_tlvs tlvs (read_tlv t c)

-- `from_tlvs`
unfoldable pub from_tlvs : List Tlv → Option ℕ → Capabilities
from_tlvs tlvs asn = read_tlvs tlvs (none_advertised asn)
