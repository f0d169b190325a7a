-- ===== src/Packet.antt =====
-- include/hakoniwa/pdu/comm/packet.hpp: the packets that raw transports carry, and the choice of the
-- wire format by the version string.
pub mod Wire
pub mod Meta
pub mod V2
pub mod Name
pub mod V1
pub mod Codec
