-- ===== src/Lib.antt =====
-- A model of packets, and what is proved of it: the routing engine rtengine and its BGP plugin.
--
-- The parts of the program and the files that model them:
--
-- Bgp/Fsm models packets/routing/rtengine/plugins/bgp/fsm.py, the RFC 4271 session state machine.
-- It takes events, queues actions for its caller and keeps timers as deadlines. Types holds the
-- states, events, actions, timers, FsmConfig and Fsm; Ops the helper methods (_act, _arm, _stop,
-- _goto, _to_idle, _notify_and_idle); Opening and Machine the handlers of each state, event and
-- abandon_connection; Tick the methods next_deadline and tick; Collision the function
-- resolve_collision. The other children hold proofs and are named for them, and Examples the
-- instances and tests. A method is a function on the record Fsm; its settings and the clock are
-- arguments. The clock reads one value while one event is handled, in milliseconds; intervals are
-- whole seconds. During tick it may read another value for each timer that fires. The loop of
-- tick has fuel, one round for each timer that runs and one more, which is proved to be enough.
-- Left out are the log lines, the callback on_state (its exceptions are swallowed by the code),
-- and the methods that only render the state.
--
-- Bgp/Errors models packets/routing/rtengine/plugins/bgp/errors.py: the RFC 7606 outcome of a
-- malformed attribute, the worst of several (Outcomes), and PeerErrorCounters with the names of
-- NOTIFICATION codes (Counters). Severity holds the proofs on outcomes.
--
-- Bgp/Bestpath models packets/routing/rtengine/plugins/bgp/bestpath.pyx, the decision process.
-- Compare holds the fields that it reads (from bestpath.pxd and attrs.pxd) and path_cmp, Select
-- the function _select with those it calls, and Dest the class BgpDest. Objects have handles that
-- stand for their identity, an attribute that a flag declares absent is none, and the marks best
-- and multipath of a path are read off the result of a selection. Of the time of arrival only the
-- order matters. Order, Ranking, Champion, Groups, Grouping and Contest show how path_cmp orders
-- paths and what the loops keep; Choice, EqualCost and Multipath are about the result, DestPaths
-- and DestMap about BgpDest. Explain models explain. Left out is what only renders, with compare.
--
-- Bgp/Attrs models the interning of attribute sets in
-- packets/routing/rtengine/plugins/bgp/attrs.pyx. Content holds the fields that are compared and
-- attrs_cmp, Table the class AttrTable, over any contents with an equality; Ordered makes
-- attrs_cmp that equality. A set is a handle, for the object's identity, and its contents; its
-- reference count and the flag ATTRF_INTERNED stand in the entry of the table, and the result -1
-- is none. Claims and Runs are about users that hold what intern returned and release only that.
-- Left out are the codec of the attributes, the derived fields, the hash, which only finds equal
-- sets, and the rendering.
--
-- Bgp/Capabilities models packets/routing/rtengine/plugins/bgp/capabilities.py: Codec the
-- encoders and decoders, Advertised the class Capabilities with as_tlvs and from_tlvs, and
-- Negotiation the functions negotiate and missing_required. Families holds the sets and
-- dictionaries of families, as lists in ascending order. A ValueError is none, and bytes are
-- numbers.
--
-- Events models packets/routing/rtengine/events.py. Delivery holds Subscription with the delivery
-- of items, Bus the methods of EventBus; payloads and callbacks are parameters, and a callback is
-- any function on the bus that may also raise. The lock and other threads are left out: a reader
-- that takes items between two publications is a shorter queue.
--
-- Rib models the routing tables and the Python code over them. Trie is
-- packets/routing/rtengine/rib/trie.pyx: Bits holds the operations on addresses of prefix.pxd,
-- Node the searches, node_intern and clear_value with _prune, Ops the class Trie. A prefix is the
-- list of its significant bits, and the tree has no parent pointers: _prune is the way back up
-- the recursion. Positions to Laws hold the proofs, and Routes shows that the lookups of a trie
-- of destinations keep what Lookup asks of a table. RouteTable is
-- packets/routing/rtengine/rib/table.pyx: Select holds route_cmp, Dest._select and the loops over
-- the candidates of a prefix, Ops the class RouteTable, whose queue is the part of _queue that is
-- left. A destination lives in the trie and the queue holds its prefix; State to Waiting hold the
-- proofs. Route holds the fields of the classes Prefix, Route and Dest that this code reads; a
-- route has a handle that stands for the identity of the object.
--
-- Of the Python code of Rib, Publish is GlobalRib._publish of
-- packets/routing/rtengine/rib/globalrib.py over any sink, and Sink the NullSink of
-- packets/routing/rtengine/fib/sink.py; a prefix is a key by its family and its significant bits,
-- which is what pfx_cmp compares, and a text at the sink and on the bus. Published composes it with the passes of one table, and
-- Selection is GlobalRib.select over all tables, with fuel for one step more than there are
-- destinations that wait. Lookup is GlobalRib.lpm and the loop that it shares with
-- Resolver._covering; a route table is an interface there (Table) with the laws of its
-- longest-prefix lookups, and raises for an address that is not of its width. The loop has fuel, one more than the length of the entry it starts
-- from, which is enough since each round shortens it. Resolver is
-- packets/routing/rtengine/rib/resolver.py, asked for a next hop; Backing and Vouching hold the
-- proofs on what stands behind an answer, Tally those on its counters; its recursion is over the
-- levels that MAX_DEPTH leaves. resolve checks the width of the address it is asked for, and the
-- constructor of Route that of a next hop, so the tables do not raise there; in the model a raise
-- would be nothing found. Left out are the iterator of the trie, its reference counts and a
-- failure to allocate, and the views that render a table.
--
-- Policy models the route maps of packets/routing/rtengine/policy/routemap.py. Conditions holds
-- the conditions of a clause (the classes OriginMatch to LargeCommunityMatch), RouteMap the class
-- of that name with its clauses and results, as the constructor of a clause leaves them: the
-- parsing of the configuration is left out, and the edits of a clause are of any type. The lists
-- that a clause names are an interface, Resolver, and so is the search with a regular expression;
-- the counters of those lists are left out. Aligned, Sequence, Decision and Calls hold the proofs.
--
-- Health models packets/routing/rtengine/health.py. Monitor holds worst and HealthMonitor; Flaps,
-- Probes and Rollup hold the proofs on the window of flaps, the status of the loop and the
-- roll-up. Times are whole milliseconds. The mean lag, the batchers, the registered components
-- and the document are left out.
--
-- Base holds what the parts share: Boolean tests, equality as an interface, lists, decimal
-- numerals, and Python's dict as an association list in insertion order.
--
-- Not modelled are the Loc-RIB, the Adj-RIB-Out and the peers of the BGP plugin, the policy store
-- and its lists, the packet codecs written in Cython, the kernel routes, the sockets, asyncio
-- tasks and threads around the parts, the REST API and the command-line tools.
pub mod Base
pub mod Bgp
pub mod Events
pub mod Rib
pub mod Health
pub mod Policy
