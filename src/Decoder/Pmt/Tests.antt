-- ===== src/Decoder/Pmt/Tests.antt =====
-- b1/arib_std_b1.c: a program map table with one elementary stream and an ECM.
use recskapa.Base.{ℕ, ◌≡◌, ◌==◌, refl, arith, [], ◌∷◌, some, none, Bool, true, false}
use recskapa.Decoder.{ok, Program, Decoder}
use recskapa.Decoder.Decryptor.Counted.{Counted, no_one}
use recskapa.Decoder.Decryptor.Refs.{pid_max}
use recskapa.Decoder.Descriptor.{find_ca_from, find_ca_descriptor_pid}
use recskapa.Decoder.Pat.{new_program}
use recskapa.Decoder.Pmt.{read_bytes, pmt_streams, proc_pmt}
use recskapa.Decoder.Pmt.Counts.{proc_pmt-Counted}
use recskapa.Decoder.Pmt.Rounds.{is_ecm_of, IsFree}
use recskapa.Decoder.Programs.{program_at}
use recskapa.Decoder.Tests.{with_binding, with_binding-Counted}
use recskapa.Section.Assembly.{zero_header}
use recskapa.Section.Parser.{Elem, Parser, empty_list, get_ts_section_list_head}
use recskapa.Section.Parser.Methods.{get}

abbrev pmt_section : Elem
pmt_section = record {
  id = 0;
  sect = record {
    hdr = record zero_header { table_id = 2 };
    raw =
        2 ∷ 0xb0 ∷ 24 ∷ 0 ∷ 1 ∷ 0xc1 ∷ 0 ∷ 0 ∷ 0xe1 ∷ 0 ∷ 0xf0 ∷ 6 ∷ 9 ∷ 4 ∷ 0 ∷ 5 ∷ 0xe2 ∷ 0 ∷ 2
        ∷ 0xe1 ∷ 0 ∷ 0xf0 ∷ 0 ∷ 1 ∷ 2 ∷ 3 ∷ 4 ∷ [];
    body = some 8;
  };
  ref = 1;
}

abbrev pmt_parser : Parser
pmt_parser = record {
  pid = some 0x300;
  work = none;
  last = some 0;
  pool = empty_list;
  buff = record { elems = pmt_section ∷ []; count = 1 };
  stat = record { total = 1; unique = 1; error = 0 };
  next_id = 1;
}

-- The stream was given up by the table before.
abbrev old_program : Program
old_program = record (new_program 1 0x300) {
  pmt = pmt_parser;
  old_strm = record { elems = record { pid = 0x100; type = 2 } ∷ []; count = 1 };
}

abbrev with_program : Decoder
with_program = record with_binding { program = old_program ∷ []; ca_system_id = 5 }

with_program-Counted : Counted no_one with_program
with_program-Counted = record {
  exact = with_binding-Counted.exact;
  points = with_binding-Counted.points;
  fresh = with_binding-Counted.fresh;
  alive = with_binding-Counted.alive;
}

abbrev no_limit : ℕ → Bool
no_limit n = true

abbrev is_stream : ℕ → Bool
is_stream j = j == 0x100

abbrev nothing_behind : ℕ → ℕ
nothing_behind i = 0

streams_apart : (j : ℕ) → is_stream j ≡ true → is_ecm_of 0x200 j ≡ false
streams_apart j h = ground (arith, h)

with_program-IsFree : IsFree is_stream with_program
with_program-IsFree j h = ground (arith, h)

proc_pmt-Counted_example :
    (prv : Decoder) × (proc_pmt no_limit nothing_behind with_program 0 ≡ some (ok, prv))
    × Counted no_one prv
unfolding get get_ts_section_list_head program_at pmt_streams read_bytes find_ca_from
    find_ca_descriptor_pid pid_max
proc_pmt-Counted_example =
    proc_pmt-Counted no_limit is_stream nothing_behind with_program 0 old_program refl
      (streams_apart, ((refl, λ j h. refl), tt)) (omega arith, tt) with_program-IsFree
      with_program-Counted
