-- ===== src/Health.antt =====
-- packets/routing/rtengine/health.py: loop lag, the flap window and the roll-up of statuses.
pub mod Monitor
pub mod Flaps
pub mod Probes
pub mod Rollup
mod Examples
