-- ===== src/Bgp/Capabilities/Negotiation.antt =====
-- packets/routing/rtengine/plugins/bgp/capabilities.py: `negotiate` and `missing_required`.
use packets.Base.{
  ℕ, ◌/◌, ◌%◌, Bool, true, false, not, ◌&&◌, Option, none, some, List, [], ◌∷◌, if◌then◌else◌, eqb,
}
use packets.Bgp.Capabilities.Families.{Family, Present, present, get}
use packets.Bgp.Capabilities.Advertised.{Capabilities}

-- A set of families.
abbrev pub Families : Type 0
Families = List (Family × Present)

abbrev is_some : {V : Type 0} → Option V → Bool
is_some none = false
is_some (some v) = true

-- `family in families`
abbrev pub has : Family → Families → Bool
has f families = is_some (get f families)

-- The members of a set that pass a test.
unfoldable pub keep : (Family → Bool) → Families → Families
keep test [] = []
keep test ((f, u) ∷ families) =
    let rest = keep test families in if test f then (f, u) ∷ rest else rest

abbrev pub is_empty : Families → Bool
is_empty [] = true
is_empty (f ∷ families) = false

abbrev pub ipv4_unicast : Family
ipv4_unicast = (1, 1)

abbrev pub direction : Option ℕ → ℕ
direction none = 0
direction (some d) = d

-- `d & ADD_PATH_SEND` and `d & ADD_PATH_RECEIVE`
abbrev pub sends : ℕ → Bool
sends d = eqb (d / 2 % 2) 1

abbrev pub receives : ℕ → Bool
receives d = eqb (d % 2) 1

pub record Negotiated : Type 0 where
  pub afi_safi : Families
  pub as4 : Bool
  pub route_refresh : Bool
  pub enhanced_route_refresh : Bool
  pub extended_message : Bool
  pub add_path_recv : Families
  pub add_path_send : Families
  pub max_message_size : ℕ
  pub peer_asn : Option ℕ
  pub peer_as4 : Bool

-- The families in use
unfoldable pub families_of : Families → Families → Families
families_of local remote =
    let common = keep (λ f. has f remote) local in
    if is_empty common && is_empty remote
    then (if has ipv4_unicast local then (ipv4_unicast, present) ∷ [] else common)
    else common

abbrev pub crosswise : Capabilities → Capabilities → Family → Bool
crosswise local remote f =
    sends (direction (get f remote.add_path)) && receives (direction (get f local.add_path))

unfoldable pub negotiate : Capabilities → Capabilities → Negotiated
negotiate local remote =
    let families = families_of local.afi_safi remote.afi_safi in
    let extended = local.extended_message && remote.extended_message in
    record {
      afi_safi = families;
      as4 = local.as4 && remote.as4;
      route_refresh = local.route_refresh && remote.route_refresh;
      enhanced_route_refresh = local.enhanced_route_refresh && remote.enhanced_route_refresh;
      extended_message = extended;
      add_path_recv = keep (crosswise local remote) families;
      add_path_send = [];
      max_message_size = if extended then 65535 else 4096;
      peer_asn = remote.asn;
      peer_as4 = remote.as4;
    }

-- `missing_required`, with the families that its texts name
unfoldable pub missing_required : Capabilities → Negotiated → Families
missing_required local negotiated = keep (λ f. not (has f negotiated.afi_safi)) local.afi_safi
