-- ===== src/Rib.antt =====
-- The routing tables, packets/routing/rtengine/rib, and the forwarding sink,
-- packets/routing/rtengine/fib/sink.py.
pub mod Route
pub mod Sink
pub mod Publish
pub mod Agreement
pub mod Trie
pub mod RouteTable
pub mod Published
pub mod Selection
pub mod Lookup
pub mod Resolver
pub mod Backing
pub mod Vouching
pub mod Tally
mod Examples
mod Tables
mod Rounds
