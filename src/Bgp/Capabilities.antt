-- ===== src/Bgp/Capabilities.antt =====
-- packets/routing/rtengine/plugins/bgp/capabilities.py: the capabilities of an OPEN and what two
-- sides agree on.
pub mod Families
pub mod Codec
pub mod Advertised
pub mod RoundTrip
pub mod Negotiation
pub mod Agreement
mod Examples
