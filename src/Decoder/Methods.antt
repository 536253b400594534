-- ===== src/Decoder/Methods.antt =====
-- b1/arib_std_b1.c: the methods of the decoder. A handle is `none` where `private_data` returns NULL.
-- The card identifier that `set_b_cas_card` stores is left out, since nothing reads it.
pub mod Input
pub mod Cleared
pub mod Tests
use recskapa.Base.{
  ℕ, ◌+◌, ◌*◌, ltb, ◌==◌, if◌then◌else◌, length, List, [], ◌∷◌, Option, some, none, Bool, true,
  false, ◌||◌,
}
use recskapa.Decoder.{Code, ok, invalid_param}
use recskapa.Decoder.{
  ecm, Target, null, program, decryptor, PidMap, DecryptorElem, Program, Decoder, zero_map,
}
use recskapa.Decoder.Decryptor.{find_dec, remove_decryptor}
use recskapa.Decoder.Pat.{release_programs}
use recskapa.Decoder.Platform.{Run, done, wild}
use recskapa.Decoder.Programs.{program_at}
use recskapa.Stream.Elems.{StreamElem, StreamList, clear_stream_list}
use recskapa.Stream.WorkBuffer.{WorkBuffer, reset_work_buffer, release_work_buffer}

abbrev no_bytes : WorkBuffer
no_bytes = record { before = 0; bytes = []; max = 0 }

-- Where there is memory for it; the counts of requests start with it.
abbrev pub create_arib_std_b1 : Decoder
create_arib_std_b1 = record {
  multi2_round = 4;
  strip = false;
  unit_size = 188;
  sbuf_offset = 0;
  pat = none;
  cat = none;
  strm_pool = record { elems = []; count = 0 };
  program = [];
  decrypt = [];
  map = λ pid. zero_map;
  ca_system_id = 0;
  emm_pid = 0;
  sbuf = no_bytes;
  dbuf = no_bytes;
  next_id = 0;
  allocs = 0;
}

-- The loop over the decryptors.
unfoldable pub remove_all : Decoder → List DecryptorElem → Decoder
remove_all prv [] = prv
remove_all prv (d ∷ ds) = remove_all (remove_decryptor prv d) ds

-- What is left of the state behind the programs.
abbrev pub clear_rest : Decoder → Decoder
clear_rest prv =
    let prv1 = record prv { program = []; strm_pool = clear_stream_list prv.strm_pool } in
    let prv2 = remove_all prv1 prv1.decrypt in
    record prv2 {
      map = λ pid. zero_map;
      emm_pid = 0;
      sbuf = release_work_buffer prv2.sbuf;
      dbuf = release_work_buffer prv2.dbuf;
    }

unfoldable pub teardown : Decoder → Option Decoder
teardown prv =
    let prv1 = record prv { unit_size = 0; sbuf_offset = 0; pat = none; cat = none } in
    elim (release_programs prv1 prv.program) [ none ↦ none | some prv2 ↦ some (clear_rest prv2) ]

-- `ARIB_STD_B1_PROGRAM_INFO`.
pub record ProgramInfo : Type 0 where
  pub program_number : ℕ
  pub ecm_unpurchased_count : ℕ
  pub last_ecm_error_code : ℕ
  pub total_packet_count : ℕ
  pub undecrypted_packet_count : ℕ

abbrev pub add_counts : PidMap → ProgramInfo → ProgramInfo
add_counts entry info = record info {
  total_packet_count = info.total_packet_count + entry.normal_packet + entry.undecrypted;
  undecrypted_packet_count = info.undecrypted_packet_count + entry.undecrypted;
}

unfoldable pub add_dec_info : Decoder → PidMap → ProgramInfo → Option ProgramInfo
add_dec_info prv entry info = elim entry.type [
  | ecm ↦ elim entry.target [
    | decryptor id ↦ elim (find_dec id prv.decrypt) [
      | none ↦ none
      | some dec ↦ some (record info {
        ecm_unpurchased_count = info.ecm_unpurchased_count + dec.unpurchased;
        last_ecm_error_code = dec.last_error;
      })
    ]
    | _ ↦ none
  ]
  | _ ↦ some info
]

-- The loop over the streams; `none` where an entry of an ECM has no decryptor.
unfoldable pub add_stream_info : Decoder → List StreamElem → ProgramInfo → Option ProgramInfo
add_stream_info prv [] info = some info
add_stream_info prv (strm ∷ rest) info = elim (add_dec_info prv (prv.map strm.pid) info) [
  | none ↦ none
  | some info1 ↦ add_stream_info prv rest (add_counts (prv.map strm.pid) info1)
]

abbrev pub fill_info : Decoder → Program → Option ProgramInfo
fill_info prv pgrm =
    let info : ProgramInfo = record {
      program_number = pgrm.program_number;
      ecm_unpurchased_count = 0;
      last_ecm_error_code = 0;
      total_packet_count = 0;
      undecrypted_packet_count = 0;
    } in
    let info1 = add_counts (prv.map pgrm.pmt_pid) info in
    let info2 =
      if pgrm.pcr_pid == 0 || pgrm.pcr_pid == 0x1fff
      then info1
      else add_counts (prv.map pgrm.pcr_pid) info1 in
    add_stream_info prv pgrm.streams.elems info2

-- `idx` is not below 0; the Boolean is false where `info` is NULL.
unfoldable pub get_program_info_arib_std_b1 :
    Option Decoder → Bool → ℕ → Run (Code × Option ProgramInfo)
get_program_info_arib_std_b1 none info idx = done (invalid_param, none)
get_program_info_arib_std_b1 (some prv) false idx = done (invalid_param, none)
get_program_info_arib_std_b1 (some prv) true idx = elim (program_at prv.program idx) [
  | none ↦ done (invalid_param, none)
  | some pgrm ↦ elim (fill_info prv pgrm) [ none ↦ wild | some info ↦ done (ok, some info) ]
]

-- `none` is a negative code.
unfoldable pub get_program_count_arib_std_b1 : Option Decoder → Option ℕ
get_program_count_arib_std_b1 none = none
get_program_count_arib_std_b1 (some prv) = some (length prv.program)

unfoldable pub set_multi2_round_arib_std_b1 : Option Decoder → ℕ → Code × Option Decoder
set_multi2_round_arib_std_b1 none round = (invalid_param, none)
set_multi2_round_arib_std_b1 (some prv) round = (ok, some (record prv { multi2_round = round }))

unfoldable pub set_strip_arib_std_b1 : Option Decoder → Bool → Code × Option Decoder
set_strip_arib_std_b1 none strip = (invalid_param, none)
set_strip_arib_std_b1 (some prv) strip = (ok, some (record prv { strip = strip }))

-- The output is `none` where a buffer is missing or the handle is not valid.
unfoldable pub get_arib_std_b1 : Option Decoder → Bool → Code × Option (List ℕ) × Option Decoder
get_arib_std_b1 none buf = (invalid_param, none, none)
get_arib_std_b1 (some prv) false = (invalid_param, none, some prv)
get_arib_std_b1 (some prv) true =
    (ok, some prv.dbuf.bytes, some (record prv { dbuf = reset_work_buffer prv.dbuf }))

unfoldable pub reset_arib_std_b1 : Option Decoder → Option (Code × Option Decoder)
reset_arib_std_b1 none = some (invalid_param, none)
reset_arib_std_b1 (some prv) = elim (teardown prv) [
  | none ↦ none
  | some prv' ↦ some (ok, some prv')
]

-- `done` where the release reaches its end; the object is gone then.
unfoldable pub release_arib_std_b1 : Option Decoder → Run (Unit {0})
release_arib_std_b1 none = done tt
release_arib_std_b1 (some prv) = elim (teardown prv) [ none ↦ wild | some prv' ↦ done tt ]
