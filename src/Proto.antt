-- ===== src/Proto.antt =====
-- src/proto: the packets that the driver station and the roboRIO exchange.
pub mod Tags
pub mod Control
pub mod Outbound
pub mod Inbound
pub mod Udp
pub mod Tcp
