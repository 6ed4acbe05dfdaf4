-- ===== src/Bgp.antt =====
-- The BGP plugin, packets/routing/rtengine/plugins/bgp.
pub mod Errors
pub mod Bestpath
pub mod Attrs
pub mod Capabilities
pub mod Fsm
