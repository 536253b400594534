-- ===== src/Decoder.antt =====
-- b1/arib_std_b1.c: the state of the decoder. A program is its index in the array `program`; a
-- decryptor is an address, which is not used again.
pub mod Descriptor
pub mod Decryptor
pub mod Ecm
pub mod Phase
pub mod Cat
pub mod Pat
pub mod Programs
pub mod Pmt
pub mod Platform
pub mod Tables
pub mod Flow
pub mod Search
pub mod Methods
pub mod Glue
pub mod Tests
use recskapa.Base.{ℕ, ◌==◌, if◌then◌else◌, List, [], Option, none, Bool}
use recskapa.Multi2.Handle.{Multi2}
use recskapa.Section.Parser.{Parser}
use recskapa.Stream.Elems.{StreamElem, StreamList}
use recskapa.Stream.WorkBuffer.{WorkBuffer}

-- 0, and the codes of arib_std_b1_error_code.h.
pub data Code : Type 0 where
  ok warn_unpurchased_ecm warn_ts_section_id_missmatch warn_broken_ts_section : Code
  invalid_param no_enough_memory non_ts_input_stream no_pat_in_head_16m : Code
  no_pmt_in_head_32m no_ecm_in_head_32m empty_b_cas_card invalid_b_cas_status : Code
  ecm_proc_failure decrypt_failure pat_parse_failure pmt_parse_failure : Code
  ecm_parse_failure cat_parse_failure : Code

-- `PID_MAP_TYPE`, as far as the source sets it.
pub data PidType : Type 0 where
  unknown pat pmt ecm emm cat other : PidType

-- What the pointer `target` of an entry points to.
pub data Target : Type 0 where
  null : Target
  program : ℕ → Target
  decryptor : ℕ → Target

-- `PID_MAP`.
pub record PidMap : Type 0 where
  pub ref : ℕ
  pub type : PidType
  pub normal_packet : ℕ
  pub undecrypted : ℕ
  pub target : Target

-- `DECRYPTOR_ELEM` with its address.
pub record DecryptorElem : Type 0 where
  pub id : ℕ
  pub ref : ℕ
  pub phase : ℕ
  pub locked : ℕ
  pub ecm_pid : ℕ
  pub ecm : Parser
  pub m2 : Option Multi2
  pub unpurchased : ℕ
  pub last_error : ℕ

-- `TS_PROGRAM`.
pub record Program : Type 0 where
  pub phase : ℕ
  pub program_number : ℕ
  pub pmt_pid : ℕ
  pub pmt : Parser
  pub pcr_pid : ℕ
  pub streams : StreamList
  pub old_strm : StreamList

-- `ARIB_STD_B1_PRIVATE_DATA` without the card. `next_id` is the address that
-- the next decryptor gets, and `allocs` counts the requests for memory.
pub record Decoder : Type 0 where
  pub multi2_round : ℕ
  pub strip : Bool
  pub unit_size : ℕ
  pub sbuf_offset : ℕ
  pub pat : Option Parser
  pub cat : Option Parser
  pub strm_pool : StreamList
  pub program : List Program
  pub decrypt : List DecryptorElem
  pub map : ℕ → PidMap
  pub ca_system_id : ℕ
  pub emm_pid : ℕ
  pub sbuf : WorkBuffer
  pub dbuf : WorkBuffer
  pub next_id : ℕ
  pub allocs : ℕ

abbrev pub zero_map : PidMap
zero_map = record { ref = 0; type = unknown; normal_packet = 0; undecrypted = 0; target = null }

-- The map with another entry for a packet identifier.
abbrev pub set_map : (ℕ → PidMap) → ℕ → PidMap → ℕ → PidMap
set_map map pid entry i = if i == pid then entry else map i
