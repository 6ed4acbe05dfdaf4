-- ===== src/Bgp/Capabilities/Examples.antt =====
-- packets/routing/rtengine/plugins/bgp/capabilities.py: the theorems at two speakers.
use packets.Base.{true, false, not, ◌&&◌, ◌||◌, some, List, [], ◌∷◌, ◌≡◌, refl}
use packets.Bgp.Capabilities.Families.{present, same_family, get}
use packets.Bgp.Capabilities.Advertised.{Capabilities, seconds, bare, Tlv, as_tlvs, from_tlvs}
use packets.Bgp.Capabilities.RoundTrip.{IsEncodable, received, from_tlvs-as_tlvs}
use packets.Bgp.Capabilities.Negotiation.{
  has, is_empty, ipv4_unicast, negotiate, missing_required, sends, receives, direction,
}
use packets.Bgp.Capabilities.Agreement.{negotiate-families}

abbrev local : Capabilities
local = record {
  asn = some 70000;
  afi_safi = ((1, 1), present) ∷ ((2, 1), present) ∷ [];
  as4 = true;
  route_refresh = true;
  enhanced_route_refresh = false;
  extended_message = true;
  add_path = ((1, 1), 1) ∷ ((2, 1), 3) ∷ [];
  graceful_restart = seconds 120;
  unknown = [];
}

abbrev remote : Capabilities
remote = record local {
  asn = some 23456;
  afi_safi = ((2, 1), present) ∷ [];
  as4 = false;
  add_path = ((2, 1), 2) ∷ [];
  graceful_restart = bare;
}

local-IsEncodable : IsEncodable local
local-IsEncodable = record {
  families_fit = (refl, (refl, tt));
  families_ascend = ((refl, tt), (tt, tt));
  restart_fits = refl;
  as4_fits = refl;
  paths_fit = (refl, refl, (refl, refl, tt));
  paths_ascend = ((refl, tt), (tt, tt));
}

from_tlvs-as_tlvs_example :
    (tlvs : List Tlv) × (as_tlvs local ≡ some tlvs)
    × (from_tlvs tlvs (some 23456) ≡ received local (some 23456))
from_tlvs-as_tlvs_example = from_tlvs-as_tlvs local (some 23456) local-IsEncodable

negotiate-families_example :
    (has (2, 1) (negotiate local remote).afi_safi ≡ (
      has (2, 1) local.afi_safi
      && (has (2, 1) remote.afi_safi
          || (is_empty remote.afi_safi && same_family (2, 1) ipv4_unicast))))
    × (has (2, 1) (negotiate local remote).add_path_recv ≡ (
        has (2, 1) (negotiate local remote).afi_safi
        && (sends (direction (get (2, 1) remote.add_path))
            && receives (direction (get (2, 1) local.add_path)))))
    × (has (2, 1) (missing_required local (negotiate local remote))
        ≡ (has (2, 1) local.afi_safi && not (has (2, 1) (negotiate local remote).afi_safi)))
negotiate-families_example = negotiate-families local remote (2, 1)
