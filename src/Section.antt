-- ===== src/Section.antt =====
-- b1/ts_section_parser.c: the checksum of a section, its assembly from the payloads of packets, and
-- the parser that queues the sections that are new.
pub mod Crc
pub mod Assembly
pub mod Parser
pub mod Tests
