-- ===== src/Proxy.antt =====
-- The active proxy, addons/activeproxy: the connections between a relay server and an upstream.
pub mod PacketType
pub mod Framing
pub mod Connection
pub mod Active
