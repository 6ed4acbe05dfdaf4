-- ===== src/Bgp/Bestpath.antt =====
-- packets/routing/rtengine/plugins/bgp/bestpath.pyx: the BGP decision process.
pub mod Order
pub mod Compare
pub mod Ranking
pub mod Select
pub mod Champion
pub mod Groups
pub mod Grouping
pub mod Contest
pub mod Choice
pub mod EqualCost
pub mod Multipath
pub mod Explain
pub mod Dest
pub mod DestPaths
pub mod DestMap
mod Examples
