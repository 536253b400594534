-- ===== src/Packet.antt =====
-- Transport stream packets in b1/arib_std_b1.c: the header, and the search for the next packet.
pub mod Header
pub mod Tests
