-- ===== src/Rib/RouteTable.antt =====
-- packets/routing/rtengine/rib/table.pyx: the routes that protocols offer and the selection of the
-- best for each prefix.
pub mod Select
pub mod Best
pub mod Ops
pub mod State
pub mod Offers
pub mod Passes
pub mod Calls
pub mod Replay
pub mod Converge
pub mod Reports
pub mod Waiting
pub mod Examples
