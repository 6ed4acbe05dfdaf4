-- ===== src/Rib/Rounds.antt =====
-- packets/routing/rtengine/rib/globalrib.py: a round in which the best route of a prefix is
-- withdrawn and another is offered.
use packets.Base.{◌∷◌, [], some, ◌≡◌, refl, All, nat_key, pair_key, list_key, bool_key}
use packets.Base.Dict
use packets.Rib.Sink.{NullSink, null_sink, no_routes, install}
use packets.Rib.Publish.{GlobalRib, prefix_key, publish, publish_one, new}
use packets.Rib.Trie.Bits.{pfx_match, pfx_bit, covers}
use packets.Rib.Trie.Node.{node_exact, node_intern}
use packets.Rib.Trie.Ops
use packets.Rib.RouteTable.Select.{
  place, removed, same_origin, same_content, route_cmp, select_from,
}
use packets.Rib.RouteTable.Ops.{write, get, dest, enqueue, offer, retract, drain, reselect}
use packets.Rib.RouteTable.State.{look}
use packets.Rib.RouteTable.Calls.{run}
use packets.Rib.RouteTable.Reports.{best_of}
use packets.Rib.RouteTable.Examples.{net, empty, first_calls, filled, filled-Fits, next_calls}
use packets.Rib.Selection.{Tables, pending, select, select_total}
use packets.Rib.Published.{SameFamily, published-best}

abbrev published : GlobalRib NullSink
published = publish null_sink 1 1 (reselect 0 (run first_calls empty)).1 (new no_routes)

next-SameFamily : All (SameFamily net) (reselect 0 (run next_calls filled)).1
unfolding reselect drain offer dest retract get Ops.get enqueue write place removed same_origin
    same_content route_cmp select_from node_exact node_intern covers pfx_match pfx_bit
next-SameFamily = (refl, tt)

published-filled :
    Dict.get ((1, 1), prefix_key net) published.published ≡ best_of (look filled net.bits)
unfolding publish publish_one new no_routes install Dict.get Dict.put reselect drain offer dest
    retract get Ops.get enqueue write place removed same_origin same_content route_cmp select_from
    node_exact node_intern covers pfx_match pfx_bit
published-filled = refl

published-best_example :
    Dict.get
      ((1, 1), prefix_key net)
      (publish null_sink 1 1 (reselect 0 (run next_calls filled)).1 published).published
    ≡ best_of (look (reselect 0 (run next_calls filled)).0 net.bits)
published-best_example =
    published-best null_sink 1 1 0 next_calls filled published net filled-Fits (tt, (tt, tt))
      next-SameFamily published-filled

abbrev tables : Tables
tables = ((1, 1), run next_calls filled) ∷ ((1, 2), empty) ∷ []

select_total_example :
    (tables' : Tables) × (r' : GlobalRib NullSink) × (select null_sink 1 tables published
      ≡ some (tables', r', pending tables))
    × (pending tables' ≡ 0)
select_total_example = select_total null_sink 1 tables published
