-- ===== src/Decoder/Pat/Tests.antt =====
-- b1/arib_std_b1.c: a program association table that replaces a program by two.
use recskapa.Base.{
  ℕ, ◌*◌, ◌≤◌, ◌≡◌, ◌≢◌, ◌⊎◌, refl, arith, length, List, [], ◌∷◌, some, none, Bool, true,
}
use recskapa.Decoder.{Code, ok, Program, Decoder}
use recskapa.Decoder.Decryptor.Counted.{Counted, no_one}
use recskapa.Decoder.Decryptor.Refs.{pid_max}
use recskapa.Decoder.Pat.{new_program, use_pat, proc_pat}
use recskapa.Decoder.Pat.Released.{Releasable}
use recskapa.Decoder.Pat.Done.{IsListed, use_pat-IsListed, proc_pat-IsListed}
use recskapa.Decoder.Tests.{with_binding, with_binding-Counted}
use recskapa.Section.Assembly.{zero_header}
use recskapa.Section.Parser.{Elem, Parser, empty_list, get_ts_section_list_head}
use recskapa.Section.Parser.Methods.{get}

-- The network, and the programs 1 and 2.
abbrev entries : List ℕ
entries = 0 ∷ 0 ∷ 0xe0 ∷ 0x10 ∷ 0 ∷ 1 ∷ 0xe3 ∷ 0 ∷ 0 ∷ 2 ∷ 0xe4 ∷ 0 ∷ []

abbrev pat_section : Elem
pat_section = record {
  id = 0;
  sect = record {
    hdr = zero_header;
    raw = 0 ∷ 0xb0 ∷ 13 ∷ 0 ∷ 1 ∷ 0xc1 ∷ 0 ∷ 0 ∷ 0 ∷ 1 ∷ 0xe3 ∷ 0 ∷ 1 ∷ 2 ∷ 3 ∷ 4 ∷ [];
    body = some 8;
  };
  ref = 1;
}

abbrev pat_parser : Parser
pat_parser = record {
  pid = some 0x0000;
  work = none;
  last = some 0;
  pool = empty_list;
  buff = record { elems = pat_section ∷ []; count = 1 };
  stat = record { total = 1; unique = 1; error = 0 };
  next_id = 1;
}

abbrev old_program : Program
old_program = record (new_program 1 0x300) {
  streams = record { elems = record { pid = 0x100; type = 2 } ∷ []; count = 1 };
}

abbrev pub with_program : Decoder
with_program = record with_binding { program = old_program ∷ []; pat = some pat_parser }

pub with_program-Counted : Counted no_one with_program
with_program-Counted = record {
  exact = with_binding-Counted.exact;
  points = with_binding-Counted.points;
  fresh = with_binding-Counted.fresh;
  alive = with_binding-Counted.alive;
}

pub with_program-Releasable : Releasable with_program with_program.program
unfolding pid_max
with_program-Releasable = (((tt, (omega arith, tt), omega arith), refl), tt)

abbrev no_limit : ℕ → Bool
no_limit n = true

use_pat-IsListed_example :
    (code : Code) × (prv : Decoder) × (use_pat no_limit with_program entries ≡ some (code, prv))
    × IsListed prv
    × (4 * length prv.program ≤ 12)
use_pat-IsListed_example =
    use_pat-IsListed no_limit no_one with_program entries refl with_program-Releasable
      with_program-Counted

proc_pat-IsListed_example :
    (code : Code) × (prv : Decoder) × (proc_pat no_limit with_program ≡ some (code, prv))
    × (((prv.program ≡ with_program.program) × (prv.map ≡ with_program.map) × (code ≢ ok))
        ⊎ IsListed prv)
unfolding get get_ts_section_list_head
proc_pat-IsListed_example =
    proc_pat-IsListed no_limit no_one with_program (λ e. absurd (ground (arith, e)))
      with_program-Releasable with_program-Counted
