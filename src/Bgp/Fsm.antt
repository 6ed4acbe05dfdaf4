-- ===== src/Bgp/Fsm.antt =====
-- packets/routing/rtengine/plugins/bgp/fsm.py: the session state machine.
pub mod Types
pub mod Ops
pub mod Opening
pub mod Machine
pub mod Tick
pub mod Invariant
pub mod Due
pub mod Graph
pub mod Actions
pub mod Stops
pub mod Backoff
pub mod Negotiation
pub mod Collision
pub mod Reach
pub mod DelayOpen
mod Examples
