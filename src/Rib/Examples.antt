-- ===== src/Rib/Examples.antt =====
-- globalrib.py and sink.py: the theorems at a small batch.
use packets.Base.{
  String, none, some, false, List, [], ◌∷◌, refl, All, string_key, nat_key, pair_key, list_key,
  bool_key, ◌==◌, ◌≡◌, if◌then◌else◌, arith,
}
use packets.Base.Dict
use packets.Rib.Trie.Bits.{bits_of}
use packets.Rib.Route.{Prefix, Route, Dest}
use packets.Rib.Sink.{NullSink, null_sink, no_routes}
use packets.Rib.Publish.{GlobalRib, RouteKey, prefix_key, publish, new}
use packets.Rib.Agreement.{Fits, Agrees, publish-Agrees}

abbrev net : Prefix
net = record { afi = 1; bits = bits_of (10 ∷ []); text = "10.0.0.0/8"; plen = 8 }

abbrev old_route : Route
old_route = record {
  handle = 1;
  prefix = net;
  protocol = 1;
  admin_distance = 20;
  metric = 0;
  nexthop = 10 ∷ 1 ∷ 0 ∷ 1 ∷ [];
  source = 1;
  recv_time = 5;
}

abbrev new_route : Route
new_route = record {
  handle = 2;
  prefix = net;
  protocol = 1;
  admin_distance = 20;
  metric = 0;
  nexthop = 10 ∷ 1 ∷ 0 ∷ 2 ∷ [];
  source = 1;
  recv_time = 9;
}

-- A flap inside one batch.
abbrev flap : List Dest
flap =
    record { prefix = net; routes = []; queued = false; best = some old_route; version = 1 }
    ∷ record { prefix = net; routes = []; queued = false; best = none; version = 2 }
    ∷ record { prefix = net; routes = []; queued = false; best = some new_route; version = 3 }
    ∷ []

-- The one text is that of the one prefix; no other text belongs to a table in use.
abbrev home : String → RouteKey
home text = if text == net.text then ((1, 1), prefix_key net) else ((0, 0), prefix_key net)

abbrev empty : GlobalRib NullSink
empty = new no_routes

empty-Agrees : Agrees home empty
unfolding new no_routes Dict.get
empty-Agrees = record {
  held = λ t. refl;
  named = λ t route h. cc;
  owned = λ k route h. cc;
  installs = refl;
  withdrawals = refl;
}

only_net : (t : String) → home t ≡ ((1, 1), prefix_key net) → t ≡ net.text
only_net t e = ground (arith, string_key.same_iff t net.text)

flap-Fits : All (Fits home 1 1) flap
flap-Fits = (
  record { of_home = refl; of_text = only_net; of_prefix = refl },
  (
    record { of_home = refl; of_text = only_net; of_prefix = tt },
    (record { of_home = refl; of_text = only_net; of_prefix = refl }, tt),
  ),
)

publish-Agrees_example : Agrees home (publish null_sink 1 1 flap empty)
publish-Agrees_example = publish-Agrees home 1 1 flap empty flap-Fits empty-Agrees
