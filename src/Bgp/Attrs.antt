-- ===== src/Bgp/Attrs.antt =====
-- packets/routing/rtengine/plugins/bgp/attrs.pyx: `AttrTable`, which shares equal attribute sets.
pub mod Content
pub mod Equality
pub mod Ordered
pub mod Table
pub mod Claims
pub mod Runs
mod Examples
