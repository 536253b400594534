-- ===== src/Stream.antt =====
-- b1/arib_std_b1.c: how the decoder stores its input, finds packets in it and keeps streams.
pub mod WorkBuffer
pub mod Sync
pub mod Elems
pub mod UnitSize
pub mod Tests
