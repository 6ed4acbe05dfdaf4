-- ===== src/Events.antt =====
-- packets/routing/rtengine/events.py: the event bus.
pub mod Delivery
pub mod Bus
pub mod Queues
pub mod Subscribe
pub mod Callbacks
mod Examples
