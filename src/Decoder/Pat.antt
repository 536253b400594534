-- ===== src/Decoder/Pat.antt =====
-- b1/arib_std_b1.c: the program association table. A result is `none` where the source follows a
-- pointer to something else than a decryptor that is in the list, counts references to one below 0,
-- or reads through a pointer that is NULL.
pub mod Entries
pub mod Released
pub mod Done
pub mod Tests
use recskapa.Base.{
  ℕ, zero, suc, ◌+◌, ◌==◌, if◌then◌else◌, bit_and, bit_or, ◌<<◌, length, List, [], ◌∷◌, ◌++◌, Bool,
  true, false, Option, some, none,
}
use recskapa.Decoder.{Code, ok, no_enough_memory, warn_ts_section_id_missmatch, pat_parse_failure}
use recskapa.Decoder.{
  PidType, pat, pmt, Target, null, program, PidMap, Program, Decoder, set_map, zero_map,
}
use recskapa.Decoder.Decryptor.{release_program}
use recskapa.Decoder.Ecm.{ecm_bytes}
use recskapa.Section.Assembly.{Section}
use recskapa.Section.Parser.{Parser}
use recskapa.Section.Parser.Methods.{create_ts_section_parser, get, ret}

abbrev pub new_program : ℕ → ℕ → Program
new_program program_number pid = record {
  phase = 0;
  program_number = program_number;
  pmt_pid = pid;
  pmt = create_ts_section_parser;
  pcr_pid = 0;
  streams = record { elems = []; count = 0 };
  old_strm = record { elems = []; count = 0 };
}

-- What the loop changes; `work` is the elements below `i`.
pub record Filling : Type 0 where
  pub code : Code
  pub work : List Program
  pub map : ℕ → PidMap
  pub allocs : ℕ

unfoldable pub release_programs : Decoder → List Program → Option Decoder
release_programs prv [] = some prv
release_programs prv (pgrm ∷ rest) = elim (release_program prv pgrm) [
  | none ↦ none
  | some prv1 ↦ release_programs prv1 rest
]

-- `memory` answers a request for memory by the number of requests before it.
module _ (memory : ℕ → Bool) where
  -- The loop, on the bytes from `head` up to `tail`.
  unfoldable pub fill_programs : Filling → List ℕ → Filling
  fill_programs f (b0 ∷ b1 ∷ b2 ∷ b3 ∷ rest) =
      let program_number = bit_or (b0 << 8) b1 in
      let pid = bit_and (bit_or (b2 << 8) b3) 0x1fff in
      let skipped = fill_programs f rest in
      let filled =
        fill_programs
          (record f {
            work = f.work ++ (new_program program_number pid ∷ []);
            map =
                set_map f.map pid
                  (record (f.map pid) { type = pmt; target = program (length f.work) });
            allocs = f.allocs + 1;
          })
          rest in
      if program_number == 0
      then skipped
      else if memory f.allocs
      then filled
      else record f { code = no_enough_memory; allocs = f.allocs + 1 }
  fill_programs f bytes = f

  -- What is done with the bytes of a section of the right kind.
  unfoldable pub use_pat : Decoder → List ℕ → Option (Code × Decoder)
  use_pat prv bytes =
      if memory prv.allocs
      then elim (release_programs (record prv { allocs = prv.allocs + 1 }) prv.program) [
        | none ↦ none
        | some prv1 ↦
            let f =
              fill_programs
                (record { code = ok; work = []; map = λ pid. zero_map; allocs = prv1.allocs })
                bytes in
            some (
              f.code,
              record prv1 {
                program = f.work;
                map =
                    set_map f.map 0x0000
                      (record (f.map 0x0000) { ref = 1; type = pat; target = null });
                allocs = f.allocs;
              },
            )
      ]
      else some (no_enough_memory, record prv { allocs = prv.allocs + 1 })

  unfoldable pub use_pat_section : Decoder → Section → Option (Code × Decoder)
  use_pat_section prv sect = elim (ecm_bytes sect) [ none ↦ none | some bytes ↦ use_pat prv bytes ]

  abbrev pub finish_pat : Option Parser → Option (Code × Decoder) → Option (Code × Decoder)
  finish_pat parser none = none
  finish_pat parser (some (r, prv)) = some (r, record prv { pat = parser })

  -- Where `get` fails, it fills in no section.
  unfoldable pub proc_pat : Decoder → Option (Code × Decoder)
  proc_pat prv =
      let (n, sect, parser) = get prv.pat true in
      let prv1 = record prv { pat = parser } in
      elim sect [
        | none ↦ some (pat_parse_failure, prv1)
        | some handed ↦ finish_pat (ret parser (some handed)).1 (
            if handed.sect.hdr.table_id == 0x00
            then use_pat_section prv1 handed.sect
            else some (warn_ts_section_id_missmatch, prv1))
      ]
