-- ===== src/Multi2.antt =====
-- The cipher MULTI2 of b1/multi2.c: the rounds on 64-bit blocks, the key schedule, and the two
-- modes in which a buffer is processed, behind the methods of a cipher object.
pub mod Word
pub mod Core
pub mod Mode
pub mod Handle
