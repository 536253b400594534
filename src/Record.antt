-- ===== src/Record.antt =====
-- recskapa.c and recskapacore.c: the recording program.
pub mod Queue
pub mod Options
