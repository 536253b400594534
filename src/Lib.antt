-- ===== src/Lib.antt =====
-- recskapa records a broadcast transport stream from a DVB tuner and descrambles it. A reading loop
-- puts buffers into a queue (recskapa.c), a thread takes them out and feeds them to the ARIB STD-B1
-- decoder (b1/arib_std_b1.c). The decoder splits packets, hands the payloads of tables to section
-- parsers (b1/ts_section_parser.c), asks the card for keys (b1/b_cas_card.c) and decrypts payloads
-- with the MULTI2 cipher (b1/multi2.c).
--
-- Base is shared: lists and words over native numbers, and bitwise operations on them.
-- Multi2 models b1/multi2.c: Word the big-endian words, Core the cipher and its key schedule, Mode
--   the loops of encrypt_multi2 and decrypt_multi2 over a buffer, Handle the object with its keys,
--   its flags and its checks. A handle is `none` where private_data returns NULL.
-- Packet models the packet header of b1/ts_common_types.h and extract_ts_header.
-- Section models b1/ts_section_parser.c: Crc its crc32, Assembly the section buffer with
--   append_section_data and check_section_complete, Parser the element lists and private functions,
--   Parser/Methods the methods. The bytes from raw up to tail are a list, an element's address is a
--   number that is not used again, and calloc for an element is a parameter. The loop over the
--   sections of a packet runs on as much fuel as there are bytes, since each whole section takes
--   three bytes at least.
-- Record models the queue of recskapa.c, with its ring, enqueue and dequeue, and two option words.
--   What a waiting thread finds when pthread_cond_timedwait returns is a list that the calls go
--   through, so that any interleaving with the other thread is one such list; it is used up after
--   61 waits at most.
-- Stream models parts of b1/arib_std_b1.c: the work buffers, the search for packet boundaries and
--   the lists of streams, and the choice of the unit size.
-- Card models b1/b_cas_card.c: Bytes the commands and numbers, Methods the methods of the card. The
--   calls of PC/SC are a record of functions on a state of the world, and malloc is a parameter.
-- Decoder models more of b1/arib_std_b1.c: Descriptor is find_ca_descriptor_pid, Decryptor the list
--   of decryptors with set_decryptor, remove_decryptor, bind_stream_decryptor, unref_stream and
--   release_program. A decryptor's address is a number; where the source would follow a pointer to
--   something else, or count below 0, the result is `none`. Ecm is proc_ecm, on top of the section
--   parser, the card and the cipher, Cat is proc_cat, Pat is proc_pat, Pmt is proc_pmt, and Phase the
--   tests with which the searches for PMTs and ECMs end. Tables is what the loops over the packets do
--   with a table, Flow the loops of proc_arib_std_b1 and flush_arib_std_b1, Search those of find_pat,
--   find_pmt and find_ecm, and Methods the methods, with put, flush and set_b_cas_card in Input. Their
--   runs end in a result, in a wild access, or without fuel; the fuel is the number of bytes, since
--   each packet or resynchronisation steps over one byte at least.
-- Decoder/Glue models decoder.c.
--
-- Words are numbers below 2 ^ 32, and their wrap-around is written out. The 64-bit counters of the
-- parser and the 32-bit reference counts are taken not to overflow. Freed memory, allocation of the
-- objects themselves, locks, signals, files and the DVB devices are not modelled.
-- The card identifier that set_b_cas_card stores, the layout of the card's pool, recskapacore.c,
-- mkpath.c, which is another author's, and the main function are not modelled.
pub mod Base
pub mod Multi2
pub mod Packet
pub mod Section
pub mod Record
pub mod Card
pub mod Decoder
pub mod Stream
