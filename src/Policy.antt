-- ===== src/Policy.antt =====
-- The route maps of packets/routing/rtengine/policy.
pub mod Conditions
pub mod Aligned
pub mod RouteMap
pub mod Sequence
pub mod Decision
pub mod Calls
mod Examples
