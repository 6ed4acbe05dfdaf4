-- ===== src/Rib/Trie.antt =====
-- packets/routing/rtengine/rib/trie.pyx: the path-compressed radix trie under the route tables.
pub mod Bits
pub mod Node
pub mod Positions
pub mod Views
pub mod Interned
pub mod Insert
pub mod Order
pub mod Remove
pub mod Compact
pub mod Shape
pub mod Ops
pub mod Valid
pub mod Laws
pub mod Routes
pub mod Longest
mod Examples
