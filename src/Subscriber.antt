-- ===== src/Subscriber.antt =====
-- subscriber.c and subscriber_util.c.
pub mod Display
pub mod Delivery
pub mod Relay
pub mod Values
pub mod Power
pub mod Strings
pub mod Scan
pub mod Command
pub mod Commands
pub mod Introduce
pub mod Leave
pub mod Acknowledge
pub mod Main
pub mod Stream
pub mod Listens
